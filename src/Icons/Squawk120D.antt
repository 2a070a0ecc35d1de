-- ===== src/Icons/Squawk120D.antt =====
-- `squawk120_png` of src/_icons.h, lines 419 to 556 of that file.
use upnp.Prelude.{ℕ, List, ◌++◌}
use upnp.Icons.Row.{row}

abbrev pub squawk120_png_d : List ℕ
squawk120_png_d =
    row 0xfa 0xd1 0x15 0xc1 0x51 0x96 0x17 0xcf 0xf2 0x3c 0x34 0x90
    ++ row 0x75 0xaa 0x9a 0x84 0x3c 0x81 0xd9 0x07 0x54 0xaa 0x5d 0x1b
    ++ row 0x15 0x07 0x31 0x0f 0x49 0x72 0xaf 0xa1 0x1f 0x76 0x82 0x46
    ++ row 0x7c 0xb6 0xd2 0x45 0x20 0x58 0x64 0x87 0xcb 0x98 0x1a 0x02
    ++ row 0x90 0x85 0x51 0x0e 0x2a 0xbf 0xf8 0x45 0x9c 0xaf 0xc4 0xba
    ++ row 0x4e 0x5c 0x65 0x92 0x95 0x01 0x52 0xdf 0x61 0x76 0x0e 0x30
    ++ row 0x59 0xf4 0x80 0x7e 0x16 0x4d 0x72 0x70 0x07 0x01 0x4e 0x8d
    ++ row 0x08 0x01 0x96 0x09 0x60 0xa6 0xbe 0xc7 0x56 0x0d 0x07 0x2a
    ++ row 0x5e 0xa8 0xb3 0xae 0x1c 0x68 0x66 0x3a 0x66 0x45 0xe0 0xaa
    ++ row 0x93 0x3a 0x0a 0xdc 0xb2 0x58 0xcf 0x0a 0x42 0x0a 0x92 0xab
    ++ row 0x69 0x8c 0xa8 0xb5 0x62 0x28 0xcf 0xbc 0x68 0xfe 0x0e 0xdb
    ++ row 0x64 0x21 0x08 0x55 0xb2 0x6e 0xa8 0x80 0x2e 0xb2 0x98 0xbd
    ++ row 0x52 0x41 0x58 0x08 0x20 0xc9 0xcb 0xb3 0x15 0xbf 0xdb 0x3a
    ++ row 0x90 0x31 0x90 0x3c 0x21 0x52 0x2d 0x88 0x54 0xe7 0x88 0x54
    ++ row 0xbc 0x7e 0xaa 0xcc 0xa2 0x62 0xa2 0x08 0xf2 0xc2 0xbf 0x4d
    ++ row 0xab 0x7b 0x75 0x14 0x3f 0xca 0x00 0x48 0x06 0x54 0x74 0x9a
    ++ row 0x0a 0x88 0xe0 0x34 0x0b 0x34 0x2d 0xef 0xda 0x0a 0x00 0x63
    ++ row 0x5d 0x16 0x97 0x39 0xb7 0x4c 0x91 0xfb 0x30 0x21 0xa7 0x15
    ++ row 0xde 0x1a 0x20 0x0c 0x0d 0x02 0x45 0x02 0x21 0x05 0xc7 0x1a
    ++ row 0x8e 0x75 0x3e 0xfc 0xb9 0x8a 0x96 0x7e 0xfc 0xde 0x57 0x9f
    ++ row 0x05 0x4b 0x86 0xc1 0x1c 0xd4 0xbd 0xc5 0x20 0x0e 0xa8 0x69
    ++ row 0x29 0xc6 0x59 0x96 0xb8 0x7c 0x19 0x52 0xf9 0x8b 0x3d 0x39
    ++ row 0xe7 0x2c 0x4c 0x9a 0xf1 0x90 0xf3 0xee 0xd6 0xe1 0xf3 0x95
    ++ row 0x65 0xc2 0xdc 0xb1 0x95 0x4a 0x03 0x40 0x3f 0xcb 0x06 0x88
    ++ row 0x33 0x39 0xc0 0x66 0xb8 0x87 0x61 0xb1 0x8a 0x36 0x06 0x8e
    ++ row 0x48 0xac 0xf2 0x00 0xa5 0x20 0x44 0x20 0xeb 0x06 0x47 0x57
    ++ row 0x50 0xe9 0x26 0xb0 0x95 0x54 0x19 0x1d 0x46 0x79 0xe4 0x18
    ++ row 0x50 0xbb 0xcc 0xeb 0x90 0x82 0xf5 0x22 0x88 0xf2 0x07 0x63
    ++ row 0x4d 0x19 0x0c 0x37 0x30 0x5c 0x8c 0x5f 0xc2 0x86 0xae 0x94
    ++ row 0x46 0x7c 0xa2 0xf5 0x6c 0x9b 0x47 0x1d 0x5c 0xed 0xe8 0xa4
    ++ row 0x0a 0x43 0xad 0x1d 0x48 0x70 0xf4 0x9d 0x35 0xee 0xa7 0x2a
    ++ row 0x25 0xb7 0xc1 0xb6 0x88 0x83 0x07 0x32 0x6c 0x66 0x91 0x93
    ++ row 0x65 0x9d 0x38 0x26 0xf4 0xb4 0x86 0xad 0xd7 0xc0 0x00 0x21
    ++ row 0x49 0xb3 0x38 0xce 0xe6 0xa9 0xdc 0x45 0x35 0x04 0x26 0xa4
    ++ row 0xca 0x87 0x23 0xce 0x53 0x81 0x52 0x46 0x42 0x83 0xb4 0xeb
    ++ row 0xc7 0x44 0x24 0x43 0x39 0xb9 0xaa 0xad 0x1f 0x3a 0xb6 0xf8
    ++ row 0x3f 0x01 0xe0 0xbc 0x27 0x69 0xc0 0xd6 0xe7 0x3f 0xd4 0xaa
    ++ row 0x00 0x52 0x9b 0x84 0x8d 0x1a 0x20 0xa5 0xf3 0xb8 0xb3 0x9f
    ++ row 0x95 0x1a 0x88 0x6f 0x65 0xe9 0x66 0xa0 0x91 0x8e 0x62 0x85
    ++ row 0xd8 0xb2 0x54 0xf8 0x37 0x50 0x7b 0x5c 0x5e 0x31 0x15 0x3f
    ++ row 0xd1 0x5a 0x0b 0x4a 0x12 0x28 0xcf 0x03 0x2b 0xd5 0x9f 0x3b
    ++ row 0x22 0xb0 0xa3 0x9a 0x01 0xa8 0xe2 0x39 0x94 0x00 0xbb 0x3c
    ++ row 0x83 0x57 0x09 0x9d 0xb2 0x2f 0x35 0xb2 0xc8 0xc9 0xb2 0x62
    ++ row 0xc0 0x68 0x31 0x51 0x27 0xf0 0xa9 0x4e 0x24 0x44 0x4c 0x30
    ++ row 0x06 0x28 0x32 0x7d 0x65 0x49 0x4c 0x40 0x70 0x06 0xce 0x1f
    ++ row 0x07 0x6d 0xdc 0x0e 0x8e 0xc6 0x85 0xc5 0x81 0x20 0xd4 0x07
    ++ row 0x79 0xd8 0x51 0x1b 0xf5 0xba 0x2c 0x9e 0x14 0x52 0x55 0x70
    ++ row 0x52 0xaa 0x68 0xeb 0x1c 0x5c 0xd2 0x03 0xb7 0x0e 0x01 0xbd
    ++ row 0x76 0xf9 0xa3 0x18 0x0e 0xa2 0x03 0xa4 0xf5 0xb5 0x70 0x51
    ++ row 0xb3 0x3f 0x58 0xf9 0xfb 0x45 0x76 0x6a 0x25 0x84 0x97 0x5c
    ++ row 0xf4 0x4d 0x43 0x9d 0x66 0x72 0x14 0x98 0x9d 0x6f 0xdb 0x60
    ++ row 0x8c 0xc9 0x92 0x3f 0x39 0x8b 0x17 0x75 0x56 0x96 0xd9 0x0b
    ++ row 0xaa 0xcc 0x67 0xa9 0xea 0xf2 0x7e 0x98 0x54 0xfa 0x15 0x52
    ++ row 0xaa 0x68 0x1a 0x08 0x93 0x8c 0x4b 0x49 0xd1 0x8c 0x08 0x5a
    ++ row 0x0e 0x54 0xf3 0x34 0x23 0x52 0x92 0x47 0x4d 0xd9 0x5f 0x9b
    ++ row 0x4f 0x18 0x63 0x1c 0x4c 0xda 0x83 0x9a 0x38 0x11 0xd1 0xbf
    ++ row 0xf9 0x0f 0x08 0x4e 0x3a 0x13 0x91 0x12 0x28 0x1e 0x1a 0x24
    ++ row 0x19 0x3d 0xa0 0xb4 0xb8 0xba 0xbd 0x24 0x00 0x9e 0xf6 0xe0
    ++ row 0x9c 0xc3 0xa1 0xf9 0x05 0xcc 0x3d 0x7c 0x3f 0xcc 0xad 0x5f
    ++ row 0x05 0x1e 0xfe 0x29 0x94 0x38 0x68 0x71 0x50 0xe4 0x90 0xfa
    ++ row 0x01 0xd2 0xfa 0x3a 0xd8 0x70 0x1c 0xac 0x74 0x5e 0x5a 0xcb
    ++ row 0x33 0x5b 0xe5 0x7a 0x9e 0xe5 0xb9 0x35 0x0a 0x5c 0xa2 0xc5
    ++ row 0x97 0x46 0x4b 0x54 0x2f 0x47 0x27 0x49 0x96 0xd1 0xf4 0x22
    ++ row 0xb0 0xce 0x82 0x88 0x41 0x6c 0xb3 0x5c 0x75 0x91 0x5f 0x2f
    ++ row 0x52 0xa7 0x39 0xa1 0x98 0xfa 0xc5 0x98 0x6a 0x2e 0x5a 0x9c
    ++ row 0x19 0x48 0x74 0x54 0xbe 0xcf 0x00 0x48 0x76 0x7e 0x66 0xb6
    ++ row 0x92 0xe8 0x70 0xe8 0x0a 0xc9 0x9e 0x34 0xa5 0x83 0x0b 0x1d
    ++ row 0xd9 0x10 0xf8 0x80 0xef 0x65 0xe1 0x9a 0xd2 0x44 0x3a 0x9f
    ++ row 0x49 0x46 0x09 0x52 0x16 0xa8 0x44 0x44 0x6a 0x21 0xd4 0xf1
    ++ row 0xa7 0xc2 0x3b 0xe5 0x97 0x28 0xd0 0x02 0xc5 0x9c 0x67 0x5a
    ++ row 0x56 0x70 0xa6 0x64 0x54 0x2a 0x43 0x46 0xce 0xf4 0xc0 0xf3
    ++ row 0x61 0xac 0x85 0x39 0x30 0x8d 0x24 0x76 0xf0 0x6a 0x11 0x7c
    ++ row 0xed 0xc0 0x24 0xd0 0x22 0xd0 0x24 0x48 0x83 0x00 0x71 0x7d
    ++ row 0x1d 0x6c 0x6d 0x22 0x5b 0xad 0xc0 0x54 0x2d 0x1b 0xf7 0x93
    ++ row 0x0d 0x47 0x18 0x9a 0x1d 0xee 0x67 0x0e 0x67 0xcb 0x87 0xa5
    ++ row 0xfc 0x08 0x6b 0x2d 0x28 0x4d 0x21 0x92 0x95 0x63 0xad 0xb5
    ++ row 0x70 0xc6 0x0c 0xd8 0xe0 0xcc 0x93 0x1f 0x6a 0xbe 0x17 0xc9
    ++ row 0xec 0x6f 0xdc 0x06 0x4c 0x9c 0x77 0x55 0x96 0x1a 0xd1 0x80
    ++ row 0x28 0x1d 0x4c 0x55 0x32 0xda 0x00 0xee 0x5d 0xe8 0xb8 0xd3
    ++ row 0xba 0x31 0x9e 0x11 0x06 0x84 0x7a 0x8d 0x11 0x05 0x84 0xc0
    ++ row 0x07 0x3c 0x9f 0xa0 0x94 0xc0 0x63 0x82 0x62 0x06 0x1c 0x24
    ++ row 0xf1 0x2c 0x16 0x16 0x66 0xa9 0x7b 0xe0 0x31 0x74 0x61 0xb2
    ++ row 0x02 0x7b 0x25 0x6f 0xba 0x5c 0x5a 0x4f 0x86 0xab 0x0d 0x23
    ++ row 0x42 0x05 0x02 0xa0 0xb4 0x46 0x9a 0xa6 0xd8 0x7f 0xe0 0x10
    ++ row 0xe2 0x7d 0x3f 0xc7 0xf1 0xc9 0x14 0x26 0xfc 0x0e 0x1c 0xe9
    ++ row 0x4c 0xad 0x3b 0x41 0x27 0x08 0xd1 0xad 0xad 0x03 0x6a 0x93
    ++ row 0x08 0xa3 0x10 0x9e 0xa7 0xc0 0x79 0x41 0xc4 0xe5 0xb6 0x38
    ++ row 0xab 0x88 0xc9 0xd2 0xf6 0xb2 0xba 0xa2 0x81 0x68 0x69 0x1a
    ++ row 0x2e 0x51 0x3d 0x5a 0xca 0xe0 0xae 0x10 0x90 0xe4 0xdd 0x27
    ++ row 0x16 0x4a 0x1c 0x98 0x39 0xcf 0x1c 0xda 0x81 0xa3 0x9d 0x08
    ++ row 0x14 0x49 0x3f 0x17 0x5d 0xf8 0x43 0x49 0x0c 0xea 0xcc 0x01
    ++ row 0x71 0xb7 0xa2 0x4a 0x1c 0x00 0xa4 0x67 0x5e 0xd7 0xb2 0x43
    ++ row 0x00 0x53 0x4b 0x80 0x3b 0xe3 0xc4 0x8d 0x89 0x40 0x8c 0xc5
    ++ row 0x71 0x02 0x89 0xac 0x95 0xb5 0x49 0x4a 0x93 0x3a 0x46 0xa0
    ++ row 0x14 0xa0 0x14 0x41 0x81 0xa0 0xb3 0x4a 0x04 0x4c 0x9a 0x90
    ++ row 0xe9 0x76 0x20 0x2e 0x19 0x04 0x78 0x85 0xf5 0x37 0x87 0xf1
    ++ row 0xba 0x00 0x20 0xd6 0x9e 0x98 0xb8 0x47 0xc9 0xd4 0x3e 0xc8
    ++ row 0xcc 0x1e 0xf8 0xa6 0x85 0x48 0x1b 0x58 0x26 0x18 0x15 0x20
    ++ row 0xf1 0xc6 0x60 0x9a 0x1b 0x61 0x6b 0x4d 0xf8 0x51 0x03 0x61
    ++ row 0xbd 0x9e 0xed 0x8b 0x91 0x87 0x42 0xec 0x5c 0x9e 0xf5 0x19
    ++ row 0x72 0x5c 0xaa 0x9b 0x8e 0x0d 0x75 0x4c 0x42 0x9e 0x80 0x9d
    ++ row 0x7e 0x1c 0xa6 0xd9 0xe6 0x39 0x05 0xa7 0x54 0x5e 0x41 0x72
    ++ row 0x03 0x33 0x89 0xaa 0xed 0x46 0x95 0xe8 0x00 0x69 0x0c 0xea
    ++ row 0xb5 0x81 0x34 0x26 0x29 0x77 0xbe 0x2b 0xd3 0x94 0x18 0x04
    ++ row 0x58 0xd1 0xbc 0xb3 0x72 0x3b 0x80 0x07 0x01 0xdc 0x64 0xac
    ++ row 0xec 0x68 0xb7 0xdd 0xce 0x5e 0x17 0xcf 0x62 0xa6 0x5d 0x44
    ++ row 0xb4 0x89 0x15 0xd5 0x42 0x1f 0x08 0x7d 0x72 0x11 0x91 0x13
    ++ row 0x4b 0x10 0x21 0x26 0xa2 0x4a 0x9d 0xf4 0xf1 0xab 0xb4 0x91
    ++ row 0x9b 0x76 0x2a 0x0d 0x45 0x40 0xd4 0x9b 0x06 0xda 0x8f 0x41
    ++ row 0xb9 0x38 0x8b 0xe1 0xc4 0xc1 0xf8 0x75 0xb4 0xd6 0x9e 0x8a
    ++ row 0xee 0xda 0x93 0xa0 0xc2 0x3a 0x82 0x28 0x40 0x54 0xab 0x81
    ++ row 0xb5 0xce 0x9d 0xac 0x6a 0xc6 0x6a 0x44 0xa3 0x5c 0xde 0x08
    ++ row 0x50 0x3c 0x9c 0x38 0xc0 0x2e 0xee 0x53 0x5e 0xaa 0xa1 0x61
    ++ row 0xa5 0xf4 0xe5 0xa2 0x38 0x7a 0x99 0xf8 0xcb 0x16 0x29 0xe2
    ++ row 0x11 0x3c 0xaf 0x96 0x5d 0xa5 0xe8 0x9e 0xb4 0x06 0x30 0x31
    ++ row 0x90 0xf6 0x40 0xce 0x40 0xe0 0x67 0xb9 0x78 0xe2 0x14 0xc0
    ++ row 0xe2 0x7d 0xb2 0x5e 0xfb 0xc3 0x96 0xe4 0x6f 0xec 0x3f 0x17
    ++ row 0xd8 0xff 0x7b 0xdb 0xa3 0xbd 0x8a 0xb1 0x57 0x2b 0x3c 0xa4
    ++ row 0x18 0x3f 0x16 0xc8 0x3a 0xed 0xe9 0x49 0xf6 0x6b 0x1b 0x18
    ++ row 0xb2 0xde 0x76 0xdb 0x1b 0xd1 0x91 0xa6 0x73 0x22 0x65 0x43
    ++ row 0xc1 0x13 0x4e 0x49 0xd2 0xa2 0x49 0xd0 0xed 0x75 0x29 0x69
    ++ row 0xcd 0x81 0xe2 0x16 0x54 0xda 0x45 0xb7 0x03 0xb8 0xb6 0x07
    ++ row 0x11 0x20 0x81 0xc6 0xc2 0x98 0x46 0x6c 0x14 0xac 0x08 0xe2
    ++ row 0x38 0x46 0x6b 0x7e 0xbe 0x5c 0xe2 0x51 0x34 0x05 0x16 0xb9
    ++ row 0xe9 0x72 0x71 0x59 0xf6 0x37 0x5b 0x88 0xa6 0x14 0x58 0xa9
    ++ row 0xac 0xaf 0x4c 0x8a 0x9a 0xb0 0xeb 0xab 0x73 0x11 0x29 0x99
    ++ row 0xef 0x40 0x47 0x92 0xae 0xa3 0x61 0xd7 0xe7 0x70 0xd2 0x05
    ++ row 0x34 0xda 0x21 0xeb 0x07 0x8c 0x00 0x6c 0x0a 0x8a 0x3b 0xf9
    ++ row 0x92 0x51 0x5b 0x78 0x79 0x22 0xac 0xc8 0x91 0xea 0x56 0x19
    ++ row 0x7c 0xe7 0x6f 0x8c 0x2d 0x5e 0x9b 0xf4 0xfb 0xdb 0x03 0x28
    ++ row 0x8d 0x03 0x44 0x98 0x66 0xc6 0x6d 0xc4 0xd0 0xdd 0xc7 0xda
    ++ row 0x6a 0x72 0xc7 0xa6 0x75 0xb5 0xad 0xa7 0x9c 0xe3 0xba 0xf3
    ++ row 0xcf 0x5f 0x98 0x9e 0x7d 0x3e 0x3a 0x7c 0x4a 0x20 0xdc 0xf0
    ++ row 0xe0 0x78 0x64 0xd7 0xe2 0x12 0x5b 0xe9 0x1e 0x4e 0x67 0x65
    ++ row 0xb1 0x03 0xdc 0xc2 0xfc 0x1c 0x16 0x0e 0x1d 0x44 0x3d 0xe9
    ++ row 0x25 0x9e 0x10 0x66 0xdb 0xda 0x97 0x99 0x2c 0xa1 0xe1 0x52
    ++ row 0x41 0xca 0x2d 0x24 0x63 0x73 0x48 0x37 0xf4 0x4c 0x32 0x3f
    ++ row 0x87 0xce 0xb4 0x21 0x62 0x76 0x4c 0x64 0x58 0x29 0xc7 0x8a

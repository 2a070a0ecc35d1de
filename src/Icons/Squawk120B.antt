-- ===== src/Icons/Squawk120B.antt =====
-- `squawk120_png` of src/_icons.h, lines 143 to 280 of that file.
use upnp.Prelude.{ℕ, List, ◌++◌}
use upnp.Icons.Row.{row}

abbrev pub squawk120_png_b : List ℕ
squawk120_png_b =
    row 0x39 0x82 0x7e 0xa6 0x0b 0x2e 0xb8 0x00 0x9f 0xff 0xfc 0xe7
    ++ row 0x37 0x30 0xf3 0x76 0x11 0x39 0x03 0xc0 0x89 0xce 0xb9 0xcd
    ++ row 0x4a 0xa9 0x0d 0x9e 0xe7 0xad 0x0b 0x82 0x60 0x8b 0xef 0xfb
    ++ row 0x1b 0xb5 0xd6 0xba 0xb0 0xb3 0xbe 0xef 0x43 0x6b 0xbd 0x22
    ++ row 0x63 0x97 0x73 0xaa 0x46 0x91 0x57 0xc4 0x41 0x58 0x41 0xfc
    ++ row 0x3a 0xa0 0xc3 0xfc 0x75 0x07 0x00 0x64 0x49 0xaf 0x4b 0x75
    ++ row 0x6d 0xab 0x23 0x75 0x2f 0x80 0x43 0x4f 0x09 0x80 0x77 0x5f
    ++ row 0xb4 0x03 0x00 0xb0 0xe3 0xca 0xdd 0x2b 0x1f 0xfb 0xf6 0x1d
    ++ row 0x10 0x01 0x4e 0x5e 0xe2 0xd8 0x7f 0xfa 0xa7 0x7f 0x82 0x88
    ++ row 0xc0 0x18 0x33 0x92 0x99 0x55 0x19 0x7e 0xff 0xb3 0x9f 0xfd
    ++ row 0x2c 0x11 0x51 0xc1 0x4e 0x4d 0x44 0x3e 0x11 0xf9 0x00 0x7c
    ++ row 0xad 0xf5 0x1a 0xcf 0xf3 0x4e 0xd2 0x5a 0xef 0x52 0x4a 0x9d
    ++ row 0x4b 0x44 0x67 0x00 0xd8 0xea 0x79 0x9e 0x17 0x86 0xa1 0xd4
    ++ row 0x6a 0x35 0x2a 0x1c 0x27 0xad 0x35 0x94 0x52 0x03 0x8c 0xad
    ++ row 0x86 0x3e 0x47 0x3a 0xb9 0x06 0xf1 0x15 0x38 0x27 0x70 0xc8
    ++ row 0x00 0x16 0x1d 0xf4 0xd9 0x2b 0x80 0x23 0xb5 0xd6 0x92 0xb7
    ++ row 0xd5 0xb1 0xaa 0x3f 0x4d 0x9d 0xac 0x01 0x47 0xf3 0x68 0x33
    ++ row 0xda 0x27 0xa2 0x8d 0x00 0x8e 0x03 0xb0 0x15 0xc0 0x69 0x00
    ++ row 0x4e 0x12 0x91 0x49 0x11 0x19 0x63 0xe6 0x28 0x08 0x82 0x66
    ++ row 0x18 0x86 0x9b 0x7c 0xdf 0x6f 0x7a 0x99 0x40 0x29 0x45 0x9e
    ++ row 0xe7 0x21 0x7f 0x5e 0xb2 0x51 0x8e 0x72 0xc7 0x63 0xee 0x90
    ++ row 0xc1 0x5a 0x07 0x47 0x0a 0x12 0x8e 0x03 0x3a 0x02 0x9c 0x64
    ++ row 0x29 0x4b 0x11 0x12 0xf0 0xa4 0x03 0x6f 0x76 0xe0 0xda 0xe3
    ++ row 0x02 0xf8 0x96 0xd7 0xed 0x00 0x88 0xf0 0xbc 0xbf 0xbf 0xff
    ++ row 0xa8 0x5d 0xf8 0xe1 0x30 0xb7 0x3c 0xf6 0x8a 0x07 0x96 0x7d
    ++ row 0xff 0x95 0xaf 0x7c 0xe5 0xa2 0xd7 0xae 0xbd 0xf6 0x5a 0xd6
    ++ row 0x5a 0x7b 0x00 0x7c 0x71 0xce 0x23 0x22 0x9f 0x98 0x03 0x88
    ++ row 0x78 0xd6 0x39 0x0f 0x22 0x1e 0x88 0x42 0xad 0xf5 0xa4 0xd6
    ++ row 0x7a 0xa3 0x52 0x6a 0x2b 0x33 0xef 0x60 0xe6 0x9d 0xcc 0xbc
    ++ row 0x03 0xc0 0xa4 0x52 0x8a 0x83 0x20 0x40 0x18 0x86 0x88 0xa2
    ++ row 0x08 0xc5 0xf3 0x02 0x50 0x22 0x2a 0x54 0xb1 0x14 0xc9 0x89
    ++ row 0x2a 0x63 0x9f 0x88 0x79 0xa8 0x82 0xeb 0x9c 0x83 0x75 0x0e
    ++ row 0x60 0x0d 0xf8 0x11 0xe0 0x85 0x00 0xa9 0xd2 0x34 0x8b 0xa0
    ++ row 0x09 0xc8 0x06 0x12 0x17 0x3d 0x2e 0x80 0x33 0xef 0xf2 0x49
    ++ row 0xe0 0xe9 0x0f 0x40 0x38 0x07 0x42 0x47 0x81 0xac 0x5a 0xeb
    ++ row 0x06 0x33 0x6f 0x80 0xc8 0x26 0xc7 0xbc 0x89 0x88 0x36 0x33
    ++ row 0xf3 0x56 0x11 0xd9 0xc4 0xc0 0x5a 0x11 0xa9 0x03 0x50 0x00
    ++ row 0x14 0x33 0x2b 0xdf 0xf7 0xc7 0xc2 0x20 0x18 0x0f 0xa3 0xa8
    ++ row 0xe1 0xfb 0x7e 0xcd 0xf7 0x7d 0x2e 0xbc 0x5f 0xa5 0x14 0x94
    ++ row 0x52 0xa5 0x1a 0x1e 0x65 0x5f 0x8f 0x16 0x73 0xab 0xa1 0x92
    ++ row 0x88 0xc0 0x5a 0xdb 0x4f 0x61 0x12 0x03 0xca 0x07 0x74 0xfe
    ++ row 0x60 0x95 0xcd 0x2d 0x71 0x75 0x76 0x66 0x42 0x88 0xfd 0xc3
    ++ row 0x06 0xf8 0x7b 0xaf 0x3b 0x19 0xcf 0xbd 0x36 0x63 0xec 0x73
    ++ row 0x87 0x98 0xfb 0xcd 0xd7 0x9f 0xae 0x34 0xdc 0x7a 0xd6 0x7a
    ++ row 0x9d 0x52 0xde 0x1a 0x64 0x36 0xcb 0x3e 0xae 0xd0 0x04 0xa2
    ++ row 0x88 0xc4 0x23 0x12 0xef 0x8e 0xab 0xe1 0x01 0x90 0xdb 0x7e
    ++ row 0x0f 0x46 0x84 0x8c 0x80 0x0c 0x04 0x56 0x40 0x2e 0x8f 0x07
    ++ row 0x09 0xe2 0x90 0x4e 0x6c 0x4e 0x5b 0xa7 0xbd 0xa4 0xe3 0xb6
    ++ row 0xee 0x74 0x5e 0xbd 0xa1 0x8d 0x75 0x9c 0x74 0x3b 0x2a 0x4d
    ++ row 0x53 0x72 0xce 0x69 0x66 0xae 0x2b 0xa5 0x9a 0x4a 0xa9 0xf5
    ++ row 0x4a 0xa9 0x4d 0xcc 0x7c 0x1c 0x31 0x6f 0x66 0xa2 0xcd 0x20
    ++ row 0xda 0x00 0x91 0x35 0xc5 0xef 0xcf 0x81 0x13 0xdf 0xf7 0xc9
    ++ row 0x0f 0x02 0x44 0x61 0x38 0xe0 0x2c 0x55 0x27 0x39 0x11 0x49
    ++ row 0x4e 0x54 0x2a 0x42 0xaa 0x61 0xcf 0xf8 0x89 0x3a 0x78 0xc5
    ++ row 0x39 0x0b 0xe6 0x3a 0xe7 0x06 0x2b 0x53 0x44 0x80 0x0e 0x80
    ++ row 0xa0 0x0e 0x74 0xe7 0xb3 0x04 0x88 0xb3 0x35 0x76 0xa6 0x29
    ++ row 0xe8 0x03 0x7c 0xdf 0x5b 0xb6 0x2d 0x0f 0xf0 0x72 0x97 0xe2
    ++ row 0x93 0x5b 0x0b 0xe0 0x7c 0x06 0x5e 0x0a 0x92 0xf3 0x08 0x58
    ++ row 0x0b 0xa0 0xf7 0xf8 0x67 0x2d 0x91 0x64 0xbc 0xa5 0xca 0x57
    ++ row 0x4b 0xf1 0x9c 0xfa 0x57 0x43 0x04 0x61 0x12 0x37 0x43 0x62
    ++ row 0x1f 0x82 0xd8 0x04 0x40 0x9d 0x98 0x43 0x66 0x15 0x2a 0xe5
    ++ row 0x42 0x00 0x1e 0x33 0x0b 0x33 0x93 0xd6 0x5a 0xfb 0xbe 0x1f
    ++ row 0x78 0xbe 0x3f 0xe6 0xfb 0x7e 0x98 0x7b 0xbb 0xda 0xf3 0x3c
    ++ row 0x95 0x87 0x30 0xe5 0xc0 0x31 0x73 0x9f 0xad 0xf9 0xf3 0x0a
    ++ row 0xb0 0x8b 0xbc 0xde 0x0a 0xb8 0x47 0xd5 0x83 0x17 0x11 0x38
    ++ row 0x6b 0x61 0xaa 0xcc 0xad 0xe4 0x99 0x01 0x81 0x28 0x0f 0x88
    ++ row 0xc6 0x21 0xed 0x19 0x20 0xed 0x01 0xce 0x68 0xb6 0x69 0x43
    ++ row 0x88 0xbc 0x81 0xb0 0x79 0x98 0xb1 0x00 0x4a 0xd6 0x3e 0xef
    ++ row 0xda 0x41 0xd6 0xde 0xfa 0x3b 0x67 0x1c 0xe7 0xac 0xdb 0x62
    ++ row 0x52 0xb3 0x91 0xc5 0x9d 0xe2 0x79 0x7c 0x2e 0x29 0x39 0x07
    ++ row 0xec 0x4e 0x29 0xb2 0x69 0xc7 0x5e 0x87 0x5b 0x90 0x8d 0x61
    ++ row 0x4d 0xfb 0x78 0xee 0xcc 0x6c 0x91 0xee 0x7c 0xca 0x8d 0x89
    ++ row 0xc8 0x8b 0x6a 0x7e 0xad 0x16 0x05 0xce 0x18 0x72 0xc6 0x64
    ++ row 0xb6 0xb1 0xa2 0x56 0x3d 0xcf 0x5b 0xf4 0x77 0x48 0xd5 0x96
    ++ row 0xd9 0x24 0xca 0xfe 0x4a 0x41 0xd3 0x02 0xe0 0x1c 0x50 0x5a
    ++ row 0x44 0x82 0x23 0xf8 0xe1 0xcb 0x01 0x5c 0x32 0x37 0x07 0xd8
    ++ row 0x5a 0x0b 0x27 0x52 0x5c 0x4f 0x3f 0x65 0x59 0x00 0x1c 0xd4
    ++ row 0x01 0xed 0x41 0xd2 0x1e 0xc8 0x59 0x30 0xa5 0x35 0x80 0x4a
    ++ row 0x4c 0x4f 0xb9 0xe6 0xe1 0xc3 0xb7 0xc1 0xdf 0xff 0xed 0x53
    ++ row 0x9a 0x10 0xf7 0x02 0x82 0xbc 0x8c 0x09 0xe7 0x32 0xc9 0x09
    ++ row 0xbe 0x26 0x4f 0x7b 0x12 0x80 0x8c 0x38 0x11 0x72 0x6e 0x85
    ++ row 0xf5 0x34 0x47 0x23 0xd3 0x24 0x29 0xc8 0x2e 0x40 0x62 0x1f
    ++ row 0x6a 0x7e 0x6f 0x53 0x5a 0xc7 0x81 0xd6 0x1d 0x4f 0xd1 0xf8
    ++ row 0x38 0xc6 0x1b 0x75 0x28 0x81 0x48 0x9a 0x12 0x65 0xc1 0x7f
    ++ row 0x79 0x39 0xcc 0x5c 0x02 0x55 0x71 0x8c 0x06 0x18 0x5a 0xb2
    ++ row 0x74 0xd0 0xf9 0xc8 0xd4 0x48 0x11 0x92 0x1c 0x81 0x96 0x3b
    ++ row 0x22 0xf6 0x8a 0xc0 0x56 0x54 0x72 0xa1 0x96 0x25 0x5f 0xa3
    ++ row 0x44 0xe5 0x23 0xbb 0x0e 0x61 0x95 0xa9 0x69 0xf6 0x00 0x11
    ++ row 0x62 0x18 0x88 0x43 0x30 0x6c 0x76 0xf5 0xf7 0x5f 0x7b 0x22
    ++ row 0xce 0xfd 0xcc 0x43 0x03 0xcc 0x2d 0x3d 0xe7 0xd7 0x9f 0xb2
    ++ row 0x0e 0xc0 0x76 0x90 0xda 0x2a 0x90 0x93 0xc5 0x98 0x67 0x31
    ++ row 0xb9 0x5d 0x8a 0x65 0x47 0x10 0xe8 0xb0 0x31 0x1e 0x80 0x15
    ++ row 0x21 0x4e 0x62 0x58 0xe7 0x8a 0xeb 0x3f 0x86 0xcd 0xf4 0x04
    ++ row 0x30 0x09 0x41 0xc3 0xb9 0x2e 0x85 0x07 0xef 0x57 0x9d 0x68
    ++ row 0x12 0xc9 0x86 0x1d 0x88 0xcc 0x46 0x68 0xcf 0x83 0xaf 0x34
    ++ row 0xe0 0x79 0x20 0x11 0x90 0x08 0xa1 0x62 0xb7 0x28 0x87 0x88
    ++ row 0xfa 0xc0 0xd2 0x80 0xea 0xad 0x7a 0x76 0x22 0xb4 0x88 0x9d
    ++ row 0xc7 0x00 0xe0 0x12 0xc4 0x02 0xd8 0xe2 0xff 0x85 0x0d 0xae
    ++ row 0x30 0x98 0x99 0x4b 0x97 0x19 0x20 0x08 0x6b 0x08 0xb1 0x40
    ++ row 0x84 0x20 0x02 0x82 0x53 0x00 0xbc 0xc3 0x72 0xb2 0x6e 0x79
    ++ row 0xdd 0xc9 0x63 0x24 0xf6 0x59 0x20 0xfa 0x15 0x08 0xfe 0x0d
    ++ row 0x91 0x3c 0x03 0xce 0x04 0xcc 0x16 0xa1 0x47 0x32 0x56 0xf7
    ++ row 0x93 0xe6 0x44 0xa8 0x1d 0x81 0xed 0x5c 0x02 0x98 0xc5 0x25
    ++ row 0xcc 0xa3 0x0d 0x2e 0x11 0x20 0xa2 0x21 0x5e 0x1d 0x5e 0xbb
    ++ row 0x8b 0xf0 0xe0 0xfd 0x48 0xbc 0x71 0x74 0xb6 0x9c 0x85 0x78
    ++ row 0xdd 0x26 0xd8 0xa4 0x01 0x17 0x66 0x6a 0x97 0x44 0xc0 0x22
    ++ row 0x20 0xe6 0x41 0xe0 0x2a 0x40 0x15 0xaf 0x4a 0x85 0xa5 0x65
    ++ row 0x59 0xae 0x58 0xdd 0x97 0x69 0x82 0x95 0x41 0x5b 0xe1 0xb8
    ++ row 0x51 0x00 0x8f 0x72 0xa4 0x46 0xbd 0x57 0x80 0x2b 0x92 0xc7
    ++ row 0xbd 0x00 0x04 0x94 0x85 0x49 0x45 0x68 0x06 0x07 0xca 0x7a
    ++ row 0x28 0x07 0x19 0x5c 0xb0 0x17 0x00 0xbe 0xfb 0x1f 0x77 0x05
    ++ row 0x64 0x7a 0x9b 0x40 0xb4 0x13 0x90 0x73 0x48 0xe4 0x0c 0x76
    ++ row 0xe9 0xc9 0x04 0x77 0x0a 0xc4 0x8d 0x93 0x4b 0xa1 0x3c 0x46
    ++ row 0x18 0x8d 0x99 0xa0 0x16 0x08 0x08 0xe4 0x9c 0x2d 0x2d 0x51
    ++ row 0xd5 0x96 0x1d 0x8b 0x44 0x87 0x14 0x38 0x6b 0x05 0xa5 0x08
    ++ row 0x5a 0x52 0xe8 0xde 0x1c 0xd4 0xdc 0x5e 0xb8 0xb9 0xe3 0x10
    ++ row 0x4f 0x4c 0x80 0xb5 0x8f 0xc0 0xd3 0x20 0x91 0x2c 0x11 0xb0
    ++ row 0xc8 0x61 0x97 0x45 0xec 0x2b 0xc3 0x92 0x11 0xb6 0x75 0x98
    ++ row 0xc5 0xb4 0x54 0x48 0x93 0x4f 0x8a 0x95 0x9c 0x56 0x19 0x62
    ++ row 0xa9 0x0c 0xa9 0xe2 0xe2 0x3b 0x5c 0x0e 0x70 0xd5 0x91 0xab
    ++ row 0xda 0x61 0x21 0x06 0x94 0x02 0x88 0x45 0x44 0x8a 0x19 0x4a
    ++ row 0x00 0xbc 0x7b 0xdf 0xbc 0x55 0x9d 0x7a 0xcd 0x23 0xb6 0x44
    ++ row 0xfb 0x3b 0xaf 0x3b 0x8d 0x18 0xc6 0xa7 0x74 0x61 0x1b 0x65
    ++ row 0x5d 0xf3 0xaf 0x22 0xe0 0x55 0x04 0x33 0xce 0x92 0xa6 0x2c
    ++ row 0xb1 0x62 0x97 0x42 0xac 0x85 0xd6 0xa1 0xf8 0x91 0x0f 0x1d
    ++ row 0x86 0x64 0xac 0x45 0x9a 0x9a 0x7c 0xf2 0xd2 0x31 0x66 0xf0
    ++ row 0xa0 0x5d 0x24 0xad 0xc0 0x7e 0x00 0x4f 0x12 0x04 0xf3 0x7b
    ++ row 0x21 0xb3 0xc7 0xa3 0xb3 0x76 0x33 0x54 0xad 0x0e 0xdf 0xd7
    ++ row 0xc5 0x30 0xe5 0x1a 0x2d 0x67 0x57 0x95 0x6d 0x4b 0xa8 0xda
    ++ row 0xe1 0x7c 0x99 0x14 0x61 0xc9 0x12 0x65 0xbc 0xe1 0xcf 0x2e
    ++ row 0xf5 0x3d 0x44 0x54 0x82 0x36 0x6c 0x63 0x87 0x2b 0x59 0x32
    ++ row 0x14 0x2a 0x55 0x5f 0xcf 0x26 0x5d 0xfe 0x7b 0x58 0x03 0xc4
    ++ row 0x54 0x64 0x3b 0xf2 0x73 0x69 0x88 0xf8 0x00 0xba 0x25 0xc0
    ++ row 0x2a 0x9d 0x1f 0x07 0xb0 0x8b 0x99 0x9e 0x47 0x44 0x2f 0x26
    ++ row 0x71 0xcf 0x64 0xd8 0x71 0x12 0x07 0x82 0xf5 0xe0 0x0c 0x20
    ++ row 0x0e 0xce 0x59 0x88 0x38 0xd2 0x8a 0x59 0x6b 0x86 0x31 0x0e
    ++ row 0x44 0x80 0xef 0xe9 0xd2 0x56 0x2c 0xb2 0x99 0xd5 0x61 0x78
    ++ row 0xa2 0x13 0x20 0xf7 0x30 0xad 0x73 0x7d 0x90 0x25 0x85 0x6a

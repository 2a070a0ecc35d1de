-- ===== src/Icons/Squawk120F.antt =====
-- `squawk120_png` of src/_icons.h, lines 695 to 832 of that file.
use upnp.Prelude.{ℕ, List, ◌++◌}
use upnp.Icons.Row.{row}

abbrev pub squawk120_png_f : List ℕ
squawk120_png_f =
    row 0x4d 0x11 0x69 0x8a 0xb8 0x49 0xe5 0x79 0x2a 0x0b 0xb5 0xc8
    ++ row 0x7c 0x33 0xe1 0x00 0x00 0x0c 0xad 0x49 0x44 0x41 0x54 0x38
    ++ row 0x2b 0xf4 0x2b 0x10 0x65 0x0e 0x99 0x0c 0x6c 0xb0 0x46 0xfd
    ++ row 0xde 0xe9 0xb2 0x17 0xcd 0x1a 0x90 0x89 0xc1 0xdd 0x39 0x70
    ++ row 0xdc 0x02 0x99 0x98 0x88 0x75 0xee 0x45 0x53 0x0f 0xc0 0x1c
    ++ row 0xdb 0xce 0xf4 0xae 0xeb 0x06 0xfd 0xde 0xc7 0xcd 0xe0 0x28
    ++ row 0x8a 0x7a 0xce 0xb9 0x07 0x5a 0xad 0xd6 0x33 0xa6 0xa6 0xa6
    ++ row 0x9a 0x22 0x82 0x20 0x08 0x24 0xb7 0xb7 0x64 0xf2 0x45 0x60
    ++ row 0xc6 0x64 0x61 0xab 0xe7 0x79 0x08 0xc3 0x10 0xf5 0x7a 0xbd
    ++ row 0xdc 0xb5 0xb5 0xd8 0x11 0xbd 0x54 0xf5 0x36 0x6b 0x25 0x6a
    ++ row 0x37 0xb6 0xa0 0xbd 0xfe 0x6c 0x8c 0xb5 0xbf 0x87 0x68 0xfa
    ++ row 0x41 0xb0 0x89 0x07 0x58 0x45 0xf4 0xd4 0xbd 0xaf 0xb5 0x73
    ++ row 0x6e 0x37 0x13 0x1d 0x12 0x71 0xdf 0x00 0xab 0x93 0x6c 0x92
    ++ row 0xbe 0xb0 0x6b 0xec 0x79 0xbd 0x85 0x85 0x73 0x95 0xf6 0x1a
    ++ row 0x7e 0x94 0xb1 0xd9 0x0f 0x83 0x0c 0x64 0xad 0x40 0x16 0x40
    ++ row 0xb1 0x16 0x89 0x90 0x17 0xe2 0x55 0xc5 0xf6 0x12 0x38 0xed
    ++ row 0x42 0xcf 0x1f 0x00 0x2f 0x4c 0x01 0x2e 0xdf 0x65 0x27 0x9f
    ++ row 0x0c 0x42 0x3c 0x05 0x60 0x76 0xd7 0x75 0x76 0x91 0xca 0x79
    ++ row 0xdc 0x00 0x7b 0x9e 0x37 0xe7 0x9c 0xfb 0xa6 0x73 0xae 0xdb
    ++ row 0xe9 0x74 0xb6 0x3a 0xe7 0xd8 0x5a 0xbb 0x00 0x60 0x8d 0x73
    ++ row 0x6e 0x2b 0x11 0xad 0x67 0xe6 0x46 0x18 0x86 0xf0 0x3c 0x4f
    ++ row 0xaa 0x5b 0xf2 0x86 0x61 0x48 0xf9 0x5d 0xbe 0x06 0x76 0x9b
    ++ row 0x61 0x48 0x96 0x2e 0x5c 0x77 0x02 0x59 0x71 0x58 0xe8 0x76
    ++ row 0x31 0xdf 0xe3 0x04 0x71 0xc7 0x01 0xf7 0x3f 0xb1 0x02 0xfb
    ++ row 0x51 0x92 0x61 0xaf 0xbd 0xf0 0xc8 0x75 0x18 0xe2 0xf7 0x7f
    ++ row 0xf7 0x77 0x71 0xd1 0x45 0x17 0xf6 0x72 0x3b 0xf8 0xd8 0x65
    ++ row 0x1f 0xfb 0xc4 0x83 0x41 0x3d 0x6c 0x43 0x30 0x23 0x22 0xfb
    ++ row 0xb4 0x6f 0x76 0x00 0xd8 0x20 0x22 0xeb 0xac 0x31 0xcd 0x2c
    ++ row 0x1f 0xae 0x40 0xdc 0xef 0x52 0x10 0x82 0x10 0x73 0x76 0xc3
    ++ row 0xc2 0x4a 0x56 0x8b 0xd2 0x1e 0xd4 0xdc 0x7e 0xa8 0xf6 0x74
    ++ row 0x56 0x51 0xea 0xfb 0x25 0xf3 0x00 0x1e 0x11 0xa2 0xd9 0x7e
    ++ row 0x91 0xa1 0x01 0x10 0x70 0xe6 0x75 0xad 0x27 0x64 0x83 0xa7
    ++ row 0x00 0x7c 0x16 0xc0 0x17 0x90 0xad 0x66 0x13 0x00 0x3a 0x49
    ++ row 0x92 0x67 0x12 0xd1 0x2f 0x87 0x61 0xf8 0xe2 0x30 0x0c 0x77
    ++ row 0xd5 0xeb 0x75 0xd4 0x6a 0xb5 0x72 0x8f 0xc8 0x6a 0xf6 0xaa
    ++ row 0xba 0x45 0x10 0x90 0x45 0x05 0x81 0xef 0xa3 0xd6 0xdc 0x06
    ++ row 0x6c 0xd8 0x2c 0xf7 0x63 0x8c 0x1e 0x09 0x4f 0xeb 0x24 0x49
    ++ row 0x6c 0x80 0x8f 0x3c 0x65 0x59 0xbb 0xa4 0x46 0x71 0x62 0x00
    ++ row 0xdc 0x06 0xe0 0x6e 0x00 0x9f 0x13 0xc8 0xae 0x34 0x89 0x5f
    ++ row 0x9e 0xc6 0xf1 0x79 0x44 0xb4 0x2b 0xa8 0xd7 0x82 0xa8 0x31
    ++ row 0x96 0x35 0xdf 0x79 0xba 0xbf 0x0d 0x44 0x45 0x39 0x97 0xab
    ++ row 0x7e 0xd3 0x1e 0xd4 0xfc 0x3e 0xa8 0x85 0xa9 0xec 0x0e 0x2c
    ++ row 0xe5 0x92 0x5d 0xf7 0x18 0x41 0x7e 0x46 0x42 0xd3 0xa3 0xc2
    ++ row 0xeb 0x23 0x06 0xb8 0xb8 0x7b 0xf5 0x79 0xe7 0x9d 0x67 0x01
    ++ row 0xcc 0x0e 0xbf 0xff 0xe1 0x0f 0x7f 0x78 0xa1 0xd9 0x6c 0x3a
    ++ row 0xe7 0xdc 0x26 0x6b 0xed 0x4e 0xad 0x35 0xd5 0x6a 0xb5 0x62
    ++ row 0x03 0x6d 0x1a 0xce 0x74 0x55 0x9f 0x33 0xb2 0xad 0x7d 0x83
    ++ row 0x68 0x0c 0xa4 0x34 0xb0 0x66 0x2b 0x92 0x39 0xa7 0x93 0x24
    ++ row 0x1e 0x2b 0x8e 0x29 0x6c 0xef 0x93 0x65 0x8b 0x8f 0xc4 0x56
    ++ row 0x17 0x6c 0x2e 0x58 0xfe 0xae 0x8b 0xff 0x08 0x39 0x9b 0x7b
    ++ row 0x00 0xa6 0x3e 0xf9 0xc9 0x2b 0xe7 0x9d 0xb5 0x56 0x9c 0xec
    ++ row 0x07 0xd1 0x6e 0x52 0x7c 0x36 0x31 0x9d 0xa2 0x83 0x80 0x95
    ++ row 0x5f 0x2e 0xb8 0xcf 0xc3 0xda 0x12 0x6e 0x12 0x30 0x60 0x62
    ++ row 0xe8 0xb9 0xfd 0x50 0xed 0x29 0xc9 0x37 0x42 0x2b 0xb2 0xd3
    ++ row 0xfb 0x20 0xb8 0x13 0x90 0x03 0xc5 0x75 0x9c 0x79 0x5d 0x6b
    ++ row 0x60 0x4c 0x8f 0xaa 0x67 0xf9 0xc7 0x7f 0xfc 0xc7 0x87 0x88
    ++ row 0xe8 0xa6 0x6e 0xb7 0x7b 0x67 0xa7 0xd3 0x99 0x4b 0xd3 0xb4
    ++ row 0x60 0x2b 0x59 0x6b 0x97 0xdc 0xaf 0x71 0xa0 0x32 0x92 0x2d
    ++ row 0xac 0xa2 0x9a 0x12 0x4c 0x46 0xaa 0xd1 0xf4 0x69 0xdb 0x47
    ++ row 0x3f 0xfa 0xd1 0x6d 0xef 0x78 0xfb 0xdb 0x9f 0xd2 0xb7 0x20
    ++ row 0x58 0x69 0x6c 0x88 0x69 0x86 0x98 0xbe 0x4e 0x44 0x7f 0x49
    ++ row 0x44 0x1f 0x4d 0xe3 0xe4 0x0b 0x9d 0xb9 0xd6 0x74 0x67 0xae
    ++ row 0x85 0xb8 0xdd 0x31 0x26 0x49 0xa4 0xda 0x7d 0x52 0xec 0xab
    ++ row 0xe5 0x40 0xa0 0xa4 0x07 0x6f 0x7e 0x3f 0x74 0x7b 0x2a 0x57
    ++ row 0xd1 0xe5 0x8a 0xbc 0x3d 0x00 0x7e 0x28 0xc0 0x81 0xa5 0x92
    ++ row 0xa0 0x4f 0x48 0xae 0xbc 0xf2 0x4a 0x10 0xd1 0x22 0x26 0x7d
    ++ row 0xe2 0x13 0x9f 0x78 0x75 0x10 0x04 0x6f 0x5a 0xb7 0x6e 0xdd
    ++ row 0x73 0x9a 0xcd 0xe6 0xc6 0xfc 0x36 0x33 0x03 0xf7 0xe7 0x1b
    ++ row 0x56 0x73 0x5a 0x6b 0xf8 0xbe 0x8f 0xf1 0xf1 0x71 0xf1 0x7d
    ++ row 0x9f 0xa6 0xa6 0xa6 0x70 0xf0 0xe0 0xc1 0x78 0xff 0xfe 0xfd
    ++ row 0x37 0xee 0xd9 0xb3 0xe7 0xab 0xbd 0x5e 0xef 0xfa 0x0f 0x7d
    ++ row 0xe8 0x43 0x77 0x8d 0xba 0x8e 0xab 0xae 0xba 0x0a 0x22 0x82
    ++ row 0x8b 0x2e 0xba 0xe8 0x29 0x03 0xf8 0xb0 0xc7 0x3d 0x30 0x6e
    ++ row 0x97 0x5f 0x1e 0x12 0xf1 0xb9 0xa4 0xf8 0xe5 0xda 0xf7 0x9f
    ++ row 0xab 0x03 0xff 0x0c 0xcf 0xf7 0xd7 0xea 0xc0 0x0f 0xb4 0x9f
    ++ row 0xed 0xb0 0x50 0xe6 0x3d 0x40 0xa8 0xff 0xfc 0x36 0x5a 0xf7
    ++ row 0xfd 0xbf 0x43 0x70 0xe8 0x81 0x6c 0xa7 0xd9 0x2c 0x97 0xe9
    ++ row 0x00 0x5c 0x4a 0xe2 0x3e 0xb6 0xf1 0xc1 0x85 0x7d 0x1b 0x6e
    ++ row 0x1f 0x11 0xfd 0x1c 0x0d 0xfb 0xb3 0x04 0x2b 0x7f 0x0a 0xe0
    ++ row 0xff 0x75 0xbb 0xdd 0x7b 0xe7 0xe6 0xe6 0x90 0x24 0xc9 0x40
    ++ row 0x22 0x64 0xd4 0xc6 0x9c 0xc6 0x98 0x32 0x09 0x02 0x00 0x93
    ++ row 0x93 0x93 0xd8 0xb8 0x71 0xa3 0x1f 0x86 0xe1 0xf9 0x61 0x18
    ++ row 0xbe 0x71 0x7c 0x7c 0xfc 0x05 0x97 0x5d 0x76 0xd9 0x09 0x7f
    ++ row 0xf1 0x17 0x7f 0xa1 0x8e 0x94 0x3d 0x4f 0x29 0xdb 0x0c 0x40
    ++ row 0x9c 0xeb 0x5d 0xf8 0xf6 0x8b 0x6e 0x26 0xa2 0x3f 0x73 0xd6
    ++ row 0xfe 0x6d 0xda 0xed 0xfd 0xa4 0xdb 0x6a 0x3d 0xd6 0x9d 0x6f
    ++ row 0x75 0xd3 0x38 0x71 0x22 0xd9 0xf6 0xa2 0x30 0x29 0x74 0xeb
    ++ row 0x20 0xf4 0xfc 0x63 0x50 0xdd 0x39 0xb0 0x89 0xf3 0x8a 0x06
    ++ row 0x43 0x88 0x0f 0x3a 0x56 0x8f 0x9e 0xf9 0x0f 0xa3 0xc1 0x3d
    ++ row 0x2a 0x0c 0xae 0x32 0x19 0x40 0xc9 0xa0 0x3f 0xf9 0x93 0x3f
    ++ row 0xf1 0x37 0x6c 0xd8 0x70 0x32 0x33 0xbf 0x3b 0x0c 0xc3 0x37
    ++ row 0xac 0x5f 0xbf 0xbe 0xd6 0x6c 0x36 0xcb 0x1b 0x58 0xe4 0xe1
    ++ row 0x0e 0x8d 0x8a 0xb7 0x6b 0xb5 0x1a 0xea 0xf5 0x3a 0x82 0x20
    ++ row 0x80 0xb5 0x16 0xfb 0xf7 0xef 0xc7 0xd4 0xd4 0xd4 0x42 0xb7
    ++ row 0xdb 0xfd 0x7e 0xbb 0xdd 0xfe 0xd1 0xcc 0xcc 0xcc 0x7d 0xad
    ++ row 0x56 0xeb 0x3e 0xe7 0xdc 0xfd 0x0f 0x3d 0xf4 0xd0 0x9e 0x4f
    ++ row 0x7f 0xfa 0xd3 0xe9 0x72 0xd7 0xf2 0x54 0x91 0x61 0x1b 0x5d
    ++ row 0x6a 0x9f 0x2b 0xaf 0x3a 0x81 0x15 0x3f 0x8f 0x88 0x5e 0xc8
    ++ row 0x5a 0x9f 0xe3 0x47 0xe1 0xa9 0x3a 0x8a 0xd6 0xa8 0xb1 0x26
    ++ row 0xfc 0x64 0x1e 0xb5 0x47 0x7e 0x84 0xb1 0x9f 0xdf 0x2a 0x63
    ++ row 0x0f 0x7d 0x0f 0xba 0x33 0x43 0xa2 0x43 0x08 0xd1 0x1e 0x21
    ++ row 0xf5 0x4d 0x80 0xfe 0xe6 0xec 0xcf 0xce 0x7c 0x05 0x00 0x7e
    ++ row 0xfc 0x1b 0x0d 0x10 0x0d 0xda 0xe0 0xa3 0x1e 0x50 0x56 0x07
    ++ row 0xf7 0xf2 0xcb 0x2f 0x57 0xc6 0x98 0x0b 0xa3 0x28 0x7a 0xd3
    ++ row 0x86 0x0d 0x1b 0x4e 0x6e 0x36 0x9b 0x63 0xf9 0x6d 0xde 0x86
    ++ row 0x6f 0xa5 0x3a 0x1c 0x82 0x21 0x08 0x02 0xc9 0x41 0x26 0xe7
    ++ row 0x1c 0xda 0xed 0x76 0x01 0x74 0x3c 0x3b 0x3b 0xbb 0xbb 0xd7
    ++ row 0xeb 0x7d 0x9f 0x99 0xbf 0x4e 0x44 0xb7 0x8b 0xc8 0x03 0x17
    ++ row 0x5e 0x78 0x61 0x7c 0xf9 0xe5 0x97 0x93 0x88 0xc8 0x3b 0xdf
    ++ row 0xf9 0xce 0xa7 0x94 0x23 0xb6 0x54 0x89 0x53 0xf9 0x3e 0xde
    ++ row 0xfc 0xa6 0x37 0x55 0x27 0xc0 0x8b 0x88 0xf9 0xdf 0x81 0xe8
    ++ row 0x57 0x75 0x10 0xec 0x0c 0xd6 0xac 0xf3 0xc7 0x3a 0xfb 0x69
    ++ row 0xe2 0x27 0x5f 0x41 0x7d 0xcf 0x8f 0xe0 0xcd 0x3f 0x06 0x4e
    ++ row 0x7b 0x00 0x2b 0x08 0xd1 0xd7 0x49 0xe4 0xd3 0x00 0xbe 0x7b
    ++ row 0xe6 0x3f 0x2c 0x3c 0x04 0x00 0x77 0xfe 0x66 0x03 0x02 0xe0
    ++ row 0xac 0x0a 0xc0 0xc7 0xd4 0x69 0x79 0xc7 0x3b 0xde 0x61 0x3f
    ++ row 0xf6 0xb1 0x8f 0x7d 0xdf 0x39 0xb7 0xae 0xdd 0x6e 0xbf 0x0e
    ++ row 0xc0 0xa9 0x93 0x93 0x93 0xf0 0x7d 0xbf 0x7f 0x0b 0xf3 0x11
    ++ row 0x52 0x24 0x47 0x44 0x04 0x49 0x92 0x20 0x08 0x02 0x04 0x41
    ++ row 0x80 0x8d 0x1b 0x37 0x62 0x7c 0x7c 0x3c 0xe8 0x74 0x3a 0x27
    ++ row 0x75 0x3a 0x9d 0x5a 0xbb 0xdd 0x3e 0x71 0x7e 0x7e 0xfe 0xc1
    ++ row 0xe9 0xe9 0xe9 0xfb 0x3e 0xf2 0x91 0x8f 0xdc 0xd5 0xe9 0x74
    ++ row 0xee 0xea 0x74 0x3a 0x8f 0xe0 0x09 0xdc 0x3b 0xe2 0xc9 0x52
    ++ row 0xdd 0xa3 0x4c 0x8a 0xb5 0xf6 0x76 0x26 0x32 0x42 0x3a 0x54
    ++ row 0xbd 0x4e 0xa0 0xf6 0xde 0x73 0xaa 0x37 0xfb 0x80 0x17 0xed
    ++ row 0xff 0x19 0x82 0xb9 0x7d 0x80 0xd8 0x6c 0xa9 0x2c 0xeb 0x3d
    ++ row 0x00 0x6e 0x27 0x31 0xdf 0x8b 0xba 0x0b 0x8f 0x2c 0xfb 0x5d
    ++ row 0x47 0xfb 0xe2 0xab 0xce 0xce 0x15 0x57 0x5c 0x81 0x76 0xbb
    ++ row 0x5d 0x1f 0x1f 0x1f 0x7f 0x26 0x33 0xbf 0xaf 0x56 0xab 0x5d
    ++ row 0xb0 0x71 0xe3 0x46 0x34 0x1a 0x8d 0xe1 0x50 0x69 0x51 0xb1
    ++ row 0xb4 0x88 0x97 0x95 0x52 0x88 0xa2 0x08 0x51 0x14 0x49 0x10
    ++ row 0x04 0x20 0x22 0x4a 0x92 0x04 0xad 0x56 0x0b 0x87 0x0e 0x1d
    ++ row 0xc2 0xec 0xec 0xac 0x99 0x9b 0x9b 0x7b 0x24 0x49 0x92 0x5b
    ++ row 0x88 0xe8 0x06 0x11 0xf9 0x9e 0xb5 0xf6 0x9e 0x8b 0x2e 0xba
    ++ row 0x28 0xc5 0xd3 0x44 0x3e 0x75 0xcd 0x35 0x78 0xeb 0x9b 0xdf
    ++ row 0x0c 0x00 0xb8 0xf4 0x6f 0xfe 0xaf 0xd2 0xb6 0xf7 0xca 0xa8
    ++ row 0xf3 0xd8 0x2b 0xc6 0x67 0x1f 0x7c 0xc1 0xf8 0xf4 0xee 0x13
    ++ row 0xd7 0xee 0xbb 0x43 0x87 0x9d 0x29 0x25 0xac 0x9d 0x90 0x7a

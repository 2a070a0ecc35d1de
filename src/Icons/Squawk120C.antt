-- ===== src/Icons/Squawk120C.antt =====
-- `squawk120_png` of src/_icons.h, lines 281 to 418 of that file.
use upnp.Prelude.{ℕ, List, ◌++◌}
use upnp.Icons.Row.{row}

abbrev pub squawk120_png_c : List ℕ
squawk120_png_c =
    row 0x4f 0xc1 0xb4 0xa6 0xd0 0xed 0xb4 0x11 0x24 0x29 0x50 0x8f
    ++ row 0x20 0x65 0xc0 0x35 0x38 0xd8 0x4b 0x39 0x3a 0xcb 0x92 0x6f
    ++ row 0x48 0x75 0x96 0xae 0x18 0x8d 0xb0 0xc1 0x55 0x76 0x16 0x83
    ++ row 0x5e 0xfd 0x7f 0xd5 0xee 0x2e 0x52 0xd9 0xfd 0xe9 0x52 0xda
    ++ row 0xe3 0xa1 0x73 0xf6 0x81 0xcc 0x55 0x74 0xe1 0x59 0xf4 0x9d
    ++ row 0x40 0x0d 0xc0 0xbb 0xfb 0x4d 0x9b 0x7b 0xa7 0x7f 0x7a 0xaf
    ++ row 0xe8 0xec 0x94 0xbc 0x86 0x20 0x2f 0x00 0xe4 0xdf 0x92 0xd8
    ++ row 0xf3 0x14 0x4c 0xa0 0x5c 0xd2 0x9f 0x9b 0x44 0x00 0x29 0x51
    ++ row 0x1e 0x41 0x7b 0x1e 0x69 0xa5 0x58 0x31 0xc3 0x65 0x31 0xa3
    ++ row 0xe4 0xc6 0x9f 0x86 0x01 0x5c 0xb4 0xac 0x91 0x46 0x00 0x7f
    ++ row 0x04 0x98 0x8b 0xcb 0x66 0x74 0x6a 0x0c 0xa0 0x35 0xac 0xef
    ++ row 0x41 0xc1 0x40 0x77 0x66 0x91 0xb4 0xe7 0x90 0x76 0x3b 0x48
    ++ row 0x4d 0x5a 0x32 0x56 0x96 0x60 0xec 0x68 0x67 0xe7 0x30 0xcd
    ++ row 0x84 0x14 0xa3 0x52 0x3e 0x19 0x52 0xed 0x79 0xf2 0xdf 0x39
    ++ row 0x38 0xc9 0x35 0x48 0xfe 0x7c 0x45 0x8f 0x8c 0x24 0x27 0xa3
    ++ row 0x2c 0x9a 0x04 0x8b 0x01 0xce 0xb3 0x5a 0x25 0xc0 0x0e 0x10
    ++ row 0xa6 0x02 0x60 0xca 0xa7 0x77 0x06 0x30 0xeb 0x09 0x40 0x9e
    ++ row 0x03 0x24 0xbb 0x94 0x24 0x01 0xc3 0x42 0x90 0xd9 0x07 0x00
    ++ row 0xd0 0x9e 0x86 0xe7 0x07 0xf0 0xc2 0x00 0xe1 0x58 0x0d 0x5e
    ++ row 0x14 0x82 0x15 0x43 0x63 0xe9 0x22 0xf6 0xa2 0x9e 0xb1 0x91
    ++ row 0xec 0xa5 0x23 0x22 0x75 0x31 0xc3 0x45 0x04 0xb1 0x52 0x80
    ++ row 0xb1 0x48 0x62 0x0b 0xee 0xce 0xc2 0x75 0xe6 0x91 0xc4 0x09
    ++ row 0xac 0x71 0xb9 0x1a 0xa3 0xbe 0x6b 0x20 0xd5 0xec 0x49 0x06
    ++ row 0x52 0x75 0xae 0x89 0x0c 0xaa 0x67 0x19 0x35 0x17 0xa5 0xc8
    ++ row 0xba 0xc8 0xa0 0x8d 0xce 0xb5 0x4a 0xf1 0x62 0x06 0x6a 0x01
    ++ row 0x46 0x1f 0xf0 0xc3 0x0a 0x20 0xa5 0x52 0x39 0xca 0xcf 0x93
    ++ row 0xa9 0xe8 0xec 0x3d 0x16 0x57 0x16 0xf8 0x09 0x04 0x62 0x95
    ++ row 0x81 0x2c 0x03 0xb3 0x4c 0xe7 0x9e 0x34 0x03 0x70 0x3a 0x8f
    ++ row 0x08 0xea 0x02 0xec 0x50 0x90 0xf5 0x2c 0x06 0x04 0x07 0x10
    ++ row 0x83 0xb4 0x16 0x66 0x26 0x3f 0xf0 0xe1 0x47 0x11 0x85 0x63
    ++ row 0x35 0x04 0xb5 0x08 0xda 0x2b 0x5a 0x4f 0x18 0x59 0xce 0x7d
    ++ row 0x09 0xe5 0x5c 0x79 0x7d 0xc9 0x66 0xb2 0x23 0x54 0xdb 0xd9
    ++ row 0xf7 0x02 0x2c 0x80 0x89 0x53 0xc4 0xa6 0x0b 0x15 0xb7 0x21
    ++ row 0xbd 0x36 0x4c 0x9a 0xc0 0x1a 0x03 0x71 0x02 0x61 0xe9 0xab
    ++ row 0xd3 0x8a 0x03 0xb3 0xc8 0xa1 0x92 0x11 0xce 0x55 0xf5 0x7f
    ++ row 0x4e 0x06 0x1c 0xa4 0x02 0xd0 0x2a 0x9b 0xb2 0xff 0xf7 0x27
    ++ row 0xdf 0xe3 0xf9 0x5d 0xfd 0x51 0x1b 0x65 0xa7 0xb3 0x90 0xde
    ++ row 0x89 0x80 0xf3 0x09 0xda 0xb7 0xc1 0x54 0x26 0x3f 0x2a 0x2a
    ++ row 0xda 0x2f 0x20 0xd0 0x00 0xe0 0xac 0x30 0x41 0x42 0x07 0x81
    ++ row 0x23 0x81 0x66 0x80 0xb5 0x82 0x1f 0x45 0x08 0x6a 0x21 0x3c
    ++ row 0xdf 0x87 0xd2 0x1a 0xac 0x54 0xc9 0x24 0xa9 0xa8 0x12 0xae
    ++ row 0xc6 0x90 0x52 0x51 0xeb 0xc5 0xe8 0x11 0x0d 0xf2 0x43 0x96
    ++ row 0x02 0xf7 0x30 0x18 0x9d 0xdb 0x1f 0xa5 0x15 0xa2 0x7a 0x84
    ++ row 0x38 0x4e 0xa1 0x3b 0x09 0x28 0xe9 0x41 0x4c 0x0a 0x67 0x0d
    ++ row 0xac 0xb5 0xc8 0x5d 0x8f 0x12 0x08 0xca 0x99 0x21 0x25 0x18
    ++ row 0x7d 0x74 0x05 0xc3 0xde 0x32 0xf5 0x5f 0xaf 0x38 0x3b 0xd6
    ++ row 0x1a 0x38 0x5b 0x0c 0xbc 0x83 0x73 0x32 0xa0 0x9a 0x09 0x59
    ++ row 0x38 0xc3 0x8a 0xa1 0x94 0x06 0xf3 0x91 0x16 0x68 0xa4 0x34
    ++ row 0x45 0xe2 0xfa 0x13 0x89 0x00 0x38 0x27 0xe0 0x42 0x13 0x43
    ++ row 0x32 0x82 0xb2 0x06 0x65 0x8b 0xc2 0x8b 0x6b 0xa7 0x9c 0xbd
    ++ row 0x05 0x83 0x0b 0x80 0x2d 0x11 0x44 0x41 0x11 0xb4 0xe7 0xc1
    ++ row 0xd3 0x04 0xed 0x07 0x08 0xea 0x35 0x0a 0x6a 0xd9 0x3a 0x19
    ++ row 0x62 0xca 0x54 0xf6 0x28 0x9b 0x90 0x9b 0x8f 0xea 0xfc 0xcf
    ++ row 0x5e 0xa3 0x81 0x10 0x87 0x68 0x90 0x3a 0xfd 0xd0 0x91 0x8e
    ++ row 0xa8 0xe6 0x2b 0x79 0xde 0xd8 0xf7 0x7d 0xf8 0x5a 0x83 0x5d
    ++ row 0x07 0xb0 0x29 0x9c 0x49 0x61 0xf2 0x07 0x51 0xc6 0x38 0x38
    ++ row 0x57 0x09 0x97 0xa4 0x3f 0x31 0x73 0x07 0xac 0xf0 0xc3 0x04
    ++ row 0x55 0x67 0x68 0xd0 0x8b 0xcd 0x72 0xc3 0x0e 0xd6 0xd9 0xcc
    ++ row 0xd1 0x74 0x32 0x10 0xb7 0x56 0x27 0xaa 0x52 0x0c 0xe5 0x0a
    ++ row 0x2f 0x5e 0x3d 0x1e 0x02 0x57 0x42 0xa4 0x2a 0x83 0xa9 0x62
    ++ row 0x0e 0xaa 0x4e 0x56 0xa6 0xa2 0x49 0xd0 0xf7 0xa2 0x33 0x06
    ++ row 0xf7 0x01 0xb6 0xc6 0x10 0x33 0x58 0xf9 0x8c 0x68 0xac 0x8e
    ++ row 0x30 0xf2 0xa0 0xbc 0x9c 0xb5 0x9c 0x3b 0x2b 0xb6 0xe8 0xfd
    ++ row 0x91 0x2c 0x4b 0x54 0xcd 0x08 0xad 0xe0 0x3f 0x43 0xfa 0x39
    ++ row 0x5e 0x19 0x60 0x2b 0x95 0xde 0x68 0x71 0x0c 0x86 0xcb 0x0d
    ++ row 0xa0 0xc5 0x4c 0xcf 0x8f 0x23 0x51 0x60 0x26 0x30 0x1c 0xe0
    ++ row 0x2c 0x9c 0x35 0x48 0xd3 0x14 0x49 0x92 0x64 0x03 0xe1 0x1c
    ++ row 0xc4 0xba 0xd2 0x97 0x58 0xd9 0x89 0xab 0xa6 0x0a 0xb3 0x44
    ++ row 0xbf 0xb3 0x16 0xce 0xe5 0x93 0x99 0x56 0x4e 0x39 0x9a 0xe2
    ++ row 0x78 0x08 0x9c 0x78 0x50 0x8a 0x8f 0xa8 0x2d 0xa7 0xb0 0xe3
    ++ row 0xae 0x00 0x33 0x7f 0x38 0xa1 0x9c 0x26 0x05 0x0e 0x28 0x93
    ++ row 0x38 0x79 0x10 0x5c 0x8c 0x64 0x61 0x83 0xfb 0x2a 0x5a 0x9c
    ++ row 0xcd 0xd2 0x99 0xe4 0x41 0xfb 0x21 0xbc 0xc0 0x07 0x6b 0x9d
    ++ row 0xa9 0x5e 0x14 0xc1 0x78 0x36 0x50 0xe4 0x18 0x56 0x67 0x89
    ++ row 0x04 0x93 0x1a 0x38 0x71 0xb9 0x9a 0x18 0x72 0x45 0x89 0xfa
    ++ row 0xc0 0x53 0x61 0x93 0x07 0xed 0x1c 0x95 0x2a 0xb9 0x72 0x1c
    ++ row 0x8d 0x9e 0x2a 0xe5 0x64 0xc8 0xf1 0x75 0xce 0xc1 0x1a 0x83
    ++ row 0x34 0x89 0x01 0x6b 0x72 0x80 0x2d 0xac 0x31 0x30 0xc6 0x64
    ++ row 0x3f 0x3e 0x4f 0xda 0x4b 0xbe 0x90 0x6b 0x91 0xf7 0x5b 0x24
    ++ row 0xee 0xcb 0x71 0xab 0xd8 0xbe 0x1c 0xe0 0x42 0x55 0x66 0x4e
    ++ row 0x2b 0x61 0x20 0x5b 0x4d 0x4b 0x14 0x0c 0x48 0x20 0x69 0x81
    ++ row 0x83 0x07 0x56 0x7c 0x44 0x14 0xce 0x98 0xea 0x4a 0x9b 0x8f
    ++ row 0x22 0xb3 0x56 0x0d 0x87 0x44 0xb2 0x95 0x0d 0x85 0x5b 0xdf
    ++ row 0x0f 0x93 0xbc 0x45 0x0c 0x86 0xb3 0x00 0x33 0xb2 0xe4 0x8f
    ++ row 0x82 0xb5 0x9c 0xd9 0x1f 0x95 0x25 0xb7 0x5d 0xce 0x0e 0x9b
    ++ row 0x66 0x55 0x1a 0x61 0x06 0xb1 0x42 0x1c 0xc7 0xb0 0xd6 0xf5
    ++ row 0x49 0x38 0x90 0xf1 0x59 0x8c 0x16 0x55 0xc2 0x88 0x23 0x09
    ++ row 0x93 0x8a 0x41 0xed 0xdb 0xfa 0x0c 0xb8 0x34 0x4d 0x11 0xcf
    ++ row 0xb7 0xe1 0x4c 0x0a 0x64 0x31 0x3a 0xc4 0x39 0x58 0x6b 0xa1
    ++ row 0xcb 0x78 0xb5 0xef 0x91 0xa2 0x62 0x93 0xcb 0x54 0xa0 0xed
    ++ row 0x03 0xb9 0x62 0xf9 0xaf 0x1a 0x22 0x95 0x16 0x85 0x46 0x26
    ++ row 0xcb 0x8a 0xd5 0x81 0x44 0x04 0x0d 0xbd 0x38 0xd7 0xbd 0x64
    ++ row 0x18 0x96 0xf7 0x5e 0x59 0x37 0x30 0x01 0x89 0xfa 0x13 0x11
    ++ row 0x92 0x97 0x0d 0xf3 0xdf 0x3d 0xe4 0x1a 0xea 0x45 0x36 0x38
    ++ row 0xbf 0x2a 0xb2 0xc6 0xa2 0xdb 0x49 0xf3 0x04 0x46 0xae 0x1a
    ++ row 0x5c 0xce 0x02 0x67 0x21 0xce 0x40 0x69 0x46 0x24 0x0c 0xd6
    ++ row 0x0a 0x71 0x9c 0xc0 0x39 0x3b 0x54 0xca 0x5a 0xc2 0xb0 0xe4
    ++ row 0xaa 0x44 0x64 0xf9 0xa0 0x73 0x10 0x7b 0x19 0x30 0xcb 0x55
    ++ row 0x55 0xe7 0xac 0x43 0x9a 0xa4 0xb0 0xdd 0x18 0x62 0xf3 0xf0
    ++ row 0xc1 0x3a 0x98 0x34 0x45 0x12 0xc7 0xa5 0x49 0xb0 0x69 0x9a
    ++ row 0x79 0xd6 0x32 0xe8 0x54 0x15 0xbf 0x4d 0x5c 0x56 0x92 0x93
    ++ row 0xe1 0xb4 0x26 0x15 0x1a 0x86 0x0e 0x43 0xaf 0xd2 0x08 0x3f
    ++ row 0x42 0x60 0x6d 0xee 0xe4 0x42 0xa0 0xb5 0x37 0xe4 0x83 0x8c
    ++ row 0x1e 0xaa 0xcc 0xb1 0x73 0x8b 0xe3 0xe0 0xd2 0x43 0x2f 0xf4
    ++ row 0xb8 0x85 0x58 0x03 0x72 0x16 0x7d 0xcd 0x2d 0x34 0x74 0x31
    ++ row 0x19 0xc0 0x9c 0xa7 0xab 0xd3 0xc4 0xa0 0x35 0xd7 0x2e 0xed
    ++ row 0xae 0x49 0x2d 0xd2 0xc4 0x64 0xde 0x22 0x01 0x9a 0x81 0x20
    ++ row 0xd4 0xb0 0xa2 0xa0 0x7d 0x0d 0x93 0x26 0xb9 0x8a 0xa6 0x6a
    ++ row 0xa3 0xef 0xd2 0x33 0x95 0x64 0x30 0x66 0x93 0xc5 0xc6 0x7a
    ++ row 0x00 0x60 0x91 0x91 0xef 0x51 0xe6 0xf9 0xc3 0x24 0x0e 0x92
    ++ row 0xd8 0x0a 0x60 0x0e 0x26 0x49 0x11 0x77 0xba 0x70 0xd6 0x81
    ++ row 0x20 0x30 0x69 0x0a 0x9b 0x9a 0xc1 0x09 0x32 0x62 0xa0 0x47
    ++ row 0x01 0xb9 0x28 0x76 0x1d 0xe5 0x03 0xca 0xa8 0xa9 0x59 0x3c
    ++ row 0x77 0x48 0xd3 0xbc 0x22 0xc4 0x0c 0x45 0x6a 0xc5 0xb9 0xd2
    ++ row 0xaf 0x09 0xbb 0x81 0xf8 0x59 0x06 0x54 0xb2 0x80 0x9c 0x85
    ++ row 0xd8 0x14 0xe2 0x6c 0xd5 0x06 0x4b 0xde 0x55 0x53 0xd2 0x5a
    ++ row 0x97 0xf3 0x5a 0xe0 0xac 0x71 0xe8 0x19 0x5b 0xfe 0x7e 0x6b
    ++ row 0x2c 0xac 0x71 0x70 0x39 0x66 0x8e 0x33 0x95 0xa4 0x3b 0x29
    ++ row 0x38 0xb1 0x48 0xe2 0xb4 0xcc 0x95 0x0e 0x75 0x5d 0xac 0x3c
    ++ row 0xeb 0x65 0xb1 0x12 0x1e 0x1e 0xd0 0xe2 0x7c 0x34 0x60 0xbb
    ++ row 0xb3 0x70 0x44 0x44 0xe0 0x8c 0x80 0x9d 0x80 0x3d 0x06 0x88
    ++ row 0x33 0xcd 0x55 0x86 0x34 0xd9 0x6f 0xb4 0x26 0x2b 0x9c 0x2f
    ++ row 0xc9 0x48 0x5a 0x7e 0x23 0xb1 0x81 0xab 0x26 0xa9 0x44 0x06
    ++ row 0x4b 0x21 0x3f 0xf8 0x5c 0x04 0x80 0x31 0x30 0x4c 0x10 0x29
    ++ row 0x1b 0xe1 0x97 0xef 0xe6 0xc8 0x4d 0x46 0x75 0x44 0x06 0xa3
    ++ row 0x96 0x0c 0x60 0xd8 0xc2 0x34 0xa1 0x6f 0x87 0x33 0x70 0xd3
    ++ row 0x01 0x80 0xf3 0xd5 0x86 0x16 0x45 0x58 0x51 0x61 0x21 0x2b
    ++ row 0x02 0x49 0x7f 0x86 0x5b 0x0b 0xc4 0xb1 0x05 0x62 0x87 0x5e
    ++ row 0x37 0x85 0x35 0x16 0xc7 0xb2 0xc8 0x50 0x98 0xae 0x01 0x5f
    ++ row 0x8c 0xfa 0x93 0xc4 0x63 0xc0 0xf3 0x75 0xd6 0x7c 0xc6 0x94
    ++ row 0x39 0x42 0x95 0xf6 0x55 0x81 0x54 0xdd 0xfd 0x6c 0x70 0x86
    ++ row 0xae 0x77 0x78 0x62 0x65 0xb1 0x27 0x2d 0x8f 0xe3 0x28 0x33
    ++ row 0x54 0x7c 0x96 0xaa 0xf6 0x38 0x4f 0xaf 0xc6 0x09 0x9c 0x13
    ++ row 0xf8 0xbe 0x0f 0x2c 0xd3 0x10 0x2f 0xb9 0xb9 0x70 0xc5 0x0a
    ++ row 0x7e 0xaa 0x9c 0x27 0x2f 0x81 0x66 0x59 0x46 0x0b 0x31 0x59
    ++ row 0x01 0x88 0x64 0x40 0x33 0x9a 0x1c 0x60 0x57 0x09 0x93 0xb2
    ++ row 0x79 0x06 0x64 0x27 0x58 0xd2 0x9e 0xe6 0x5f 0x6e 0x8d 0x2b
    ++ row 0xed 0xa0 0x73 0x82 0x63 0x59 0x44 0xaa 0x82 0x4b 0x95 0xd7

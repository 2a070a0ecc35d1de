-- ===== src/Icons/Squawk120E.antt =====
-- `squawk120_png` of src/_icons.h, lines 557 to 694 of that file.
use upnp.Prelude.{ℕ, List, ◌++◌}
use upnp.Icons.Row.{row}

abbrev pub squawk120_png_e : List ℕ
squawk120_png_e =
    row 0x85 0x95 0x62 0x56 0x8a 0x15 0x2b 0x8f 0x95 0x52 0x4a 0x2b
    ++ row 0x28 0xad 0xa1 0x3d 0x0f 0xaa 0x58 0xad 0x3f 0x5c 0x7c 0xb0
    ++ row 0x2e 0xef 0x04 0x31 0xf9 0x5f 0x19 0x68 0x54 0x58 0xde 0x56
    ++ row 0x17 0x41 0xde 0xd2 0x71 0x33 0xd1 0x92 0xc5 0xe0 0xc5 0xca
    ++ row 0x41 0x06 0x22 0x48 0x20 0x4d 0x40 0xdd 0x79 0x20 0xe9 0x56
    ++ row 0x2b 0x2f 0x10 0x62 0xe7 0x58 0xb7 0x40 0x6c 0xfa 0xd5 0x2f
    ++ row 0x40 0xff 0xf5 0x19 0xb5 0x72 0xa6 0xfc 0xee 0xdd 0x5d 0xbc
    ++ row 0xe5 0x81 0x18 0x79 0x90 0x9c 0x0c 0x7c 0xdb 0xa1 0xfd 0x73
    ++ row 0xdf 0xbd 0xe0 0x0d 0xd2 0xdb 0xb3 0xbb 0xed 0x5a 0xad 0x47
    ++ row 0xe5 0xf8 0xd3 0x9e 0x43 0xb5 0xc6 0xf9 0x92 0x26 0xeb 0x84
    ++ row 0x46 0xef 0xd2 0xb6 0x94 0x2a 0x5e 0xa9 0x5c 0x16 0xc7 0x31
    ++ row 0xc5 0x71 0x2c 0xdd 0x4e 0x67 0xa6 0x17 0x27 0x8f 0x06 0x42
    ++ row 0x77 0x90 0xd8 0x3d 0x26 0x95 0x28 0x4d 0xd9 0x67 0x22 0x48
    ++ row 0x02 0x71 0x89 0x11 0x97 0x5a 0xe3 0x9c 0xb3 0x36 0x35 0x22
    ++ row 0x71 0x8f 0x89 0x48 0x31 0xb3 0x66 0xa5 0x3c 0x66 0x0e 0x58
    ++ row 0xa9 0x90 0x15 0x87 0xcc 0x5c 0x63 0x56 0x75 0x56 0x3c 0xce
    ++ row 0x4a 0x35 0x99 0x79 0x82 0x98 0xeb 0x4c 0xac 0x88 0x8b 0x6e
    ++ row 0x48 0x85 0xea 0xa2 0x70 0x22 0x22 0xd2 0x1a 0x5a 0x53 0x59
    ++ row 0x6f 0xee 0xb7 0x2f 0xc9 0xf2 0x6b 0xb1 0x68 0x74 0xc1 0x66
    ++ row 0xb4 0x87 0xbe 0xb4 0xc5 0x96 0x61 0xe7 0xd3 0x26 0x40 0xaf
    ++ row 0x05 0xa4 0x43 0x00 0x83 0x3a 0xc2 0x6a 0x16 0xe0 0x12 0xb7
    ++ row 0xb3 0xae 0x5b 0x80 0xa6 0xa2 0x81 0x6b 0x05 0xb6 0xed 0xbb
    ++ row 0xe5 0x26 0xd4 0x37 0x6f 0x7b 0xb4 0x31 0x31 0x31 0x8d 0xc6
    ++ row 0xe4 0x6d 0x3f 0xbb 0xf3 0x47 0x7b 0xf6 0xec 0x3f 0xf0 0x4c
    ++ row 0x97 0x26 0xeb 0x44 0x7b 0x10 0x3e 0x72 0xa6 0x62 0x04 0xeb
    ++ row 0xad 0xb5 0x68 0xb7 0xdb 0x68 0xb7 0xdb 0x12 0xf7 0x7a 0xd3
    ++ row 0x86 0xf4 0xed 0x53 0xe1 0xe6 0xbf 0x7c 0xfd 0x65 0x7f 0xfe
    ++ row 0x5d 0x00 0xf8 0xec 0xb3 0x27 0x34 0x03 0x70 0x0a 0x10 0xd5
    ++ row 0x57 0xc1 0xac 0x95 0xc0 0x6a 0x86 0x48 0x04 0xa0 0xe1 0xac
    ++ row 0x6d 0x38 0x6b 0xc7 0x91 0xa6 0xe3 0x00 0xc6 0x01 0x34 0x88
    ++ row 0x68 0x0d 0x65 0x7b 0x75 0x6c 0x05 0xb0 0x1d 0x22 0xc7 0x89
    ++ row 0xc8 0x24 0x31 0xb3 0x52 0x2a 0xd5 0x9e 0x47 0xda 0xf7 0x94
    ++ row 0xe7 0xfb 0x81 0xf6 0x3c 0x4f 0x17 0x5b 0x23 0xe9 0x2c 0xbe
    ++ row 0x86 0xb1 0x25 0xa3 0x41 0x45 0xbe 0x98 0x96 0xfd 0x6d 0xd5
    ++ row 0x94 0x40 0x01 0x6e 0xff 0xd0 0x91 0xad 0xf6 0xf9 0xe2 0xb2
    ++ row 0x4a 0xc9 0x93 0x8a 0x7c 0x07 0x41 0x4c 0x0a 0xea 0xb6 0x40
    ++ row 0x05 0x83 0xcb 0x74 0x10 0xb5 0x00 0x9a 0x12 0xa2 0x41 0x1b
    ++ row 0xfc 0x3b 0x77 0x77 0x97 0xbc 0xb0 0xbf 0x3f 0xb3 0x81 0xd7
    ++ row 0xdf 0xd9 0x02 0x00 0x1c 0xf7 0xbc 0x97 0x00 0x40 0x22 0x22
    ++ row 0x29 0x00 0x53 0x3f 0xf1 0xb4 0x1e 0x1d 0x9c 0x72 0x30 0xa6
    ++ row 0xaf 0x96 0x56 0x68 0xfa 0x5e 0x94 0xa8 0xcf 0x99 0xe2 0x9c
    ++ row 0xcb 0xfa 0xab 0xe2 0x18 0xbd 0x5e 0x0f 0xdd 0xc4 0xa0 0x67
    ++ row 0x41 0x4e 0x47 0x9b 0x54 0xa3 0x76 0x52 0xea 0xd5 0xcb 0x13
    ++ row 0xfe 0xd6 0x6d 0xb3 0xb9 0x0a 0x9a 0x01 0xf0 0x08 0x80 0xef
    ++ row 0x03 0xf8 0xeb 0x61 0x2f 0x72 0xfe 0x23 0xff 0xfd 0x4f 0xbd
    ++ row 0x30 0xaa 0x85 0x8a 0x55 0x08 0xa2 0x00 0x90 0x80 0x99 0x6b
    ++ row 0xac 0x74 0x83 0x98 0x26 0x89 0x68 0x2d 0x44 0x1a 0x22 0x52
    ++ row 0x23 0xa2 0xc8 0x69 0x1d 0x39 0xe7 0x9a 0xd6 0xd9 0xb5 0xd6
    ++ row 0x98 0xf5 0xac 0xf4 0x46 0x56 0xdd 0x8d 0xcc 0x3c 0x91 0x6b
    ++ row 0x05 0x30 0xab 0x7c 0xd7 0x00 0x86 0xd2 0x9a 0x0a 0x7b 0xdf
    ++ row 0x77 0xd8 0xf2 0x38 0x66 0xc9 0x01 0x18 0x55 0x89 0x5d 0x26
    ++ row 0x83 0x32 0x98 0xe8 0xcd 0xfe 0x67 0x12 0x50 0xaf 0x05 0x4a
    ++ row 0x7b 0x03 0x0c 0x26 0x71 0xb3 0x24 0x76 0x3f 0x41 0x3a 0x8b
    ++ row 0x9c 0xac 0xa5 0xe4 0xf5 0x77 0xb6 0x46 0x81 0xc6 0x00 0x82
    ++ row 0xde 0xbe 0x87 0x43 0x71 0x8e 0x47 0x79 0xc8 0x2b 0x79 0xc9
    ++ row 0xc3 0xeb 0x60 0xd3 0x34 0x45 0xb7 0xdb 0xc5 0x42 0xbb 0x8d
    ++ row 0x4e 0xbb 0x0d 0x67 0x8d 0x10 0x40 0x81 0xd6 0x63 0x4a 0xab
    ++ row 0xb3 0x10 0xf7 0xb6 0x2c 0x75 0x8d 0x57 0x5f 0x7d 0x75 0xf9
    ++ row 0xfc 0x6d 0x6f 0x7b 0x5b 0xf9 0xfc 0xfd 0x1f 0xfc 0x50 0x51
    ++ row 0x17 0x6d 0xad 0xa4 0x59 0x3e 0xf9 0xc9 0x4f 0x86 0xce 0xb9
    ++ row 0x75 0x2e 0x8e 0x37 0xa7 0x49 0xb2 0x95 0x98 0x4f 0x20 0xa2
    ++ row 0xed 0x44 0x38 0x1d 0xc0 0x56 0x11 0x34 0x94 0x52 0x81 0x1f
    ++ row 0x86 0x1c 0x44 0x91 0xe7 0x87 0x41 0x48 0x4a 0x29 0x66 0xce
    ++ row 0xb2 0x28 0xce 0x15 0x1d 0xa1 0x34 0x14 0x16 0x17 0xc9 0x57
    ++ row 0x5a 0xd4 0xc4 0xb2 0x44 0xdf 0x5a 0xb9 0x76 0xb9 0x2c 0x82
    ++ row 0xcb 0x80 0x16 0x10 0x93 0xab 0xe8 0xa4 0x9b 0x9f 0x99 0xf2
    ++ row 0x7c 0x88 0x9d 0x65 0x97 0xee 0x03 0xa8 0x7b 0xd8 0x00 0x2f
    ++ row 0x61 0x47 0x2d 0x80 0x56 0xaf 0xd7 0x9b 0x73 0xce 0x1d 0xd1
    ++ row 0xae 0x3a 0x03 0x4d 0x73 0xce 0x21 0x49 0x92 0x92 0xb5 0xbd
    ++ row 0x5e 0x0f 0x3d 0x93 0x6d 0xf6 0x35 0x79 0xe8 0x1e 0xac 0x99
    ++ row 0xbe 0x17 0x9a 0x04 0xd0 0xbe 0xc6 0x0a 0x77 0x87 0x79 0xa2
    ++ row 0x1d 0x25 0x7f 0xf0 0x07 0x7f 0xd0 0xfb 0xd0 0xfb 0xdf 0xbf
    ++ row 0x77 0xcd 0xda 0x75 0xf3 0xac 0xd4 0x5e 0xd6 0xea 0x67 0x19
    ++ row 0x73 0x31 0x09 0x60 0x42 0x04 0x0d 0x71 0xb2 0x96 0x38 0x39
    ++ row 0x5e 0xc4 0xed 0x48 0x93 0xf8 0x74 0x66 0xda 0x48 0xc4 0xbe
    ++ row 0xd2 0x0a 0x5a 0x7b 0xd9 0xea 0x0f 0xdf 0xcb 0x1b 0xee 0x2b
    ++ row 0xa5 0x4a 0x91 0x65 0x96 0x4f 0x8f 0x5e 0x98 0x5e 0xe6 0x2d
    ++ row 0xb8 0xd2 0x8c 0x50 0xe8 0x76 0x9b 0x82 0x7a 0x0b 0xa0 0x34
    ++ row 0x2e 0xb7 0xa7 0x29 0x18 0xcc 0x36 0x3d 0x00 0x3a 0x42 0x80
    ++ row 0x87 0x17 0x97 0xe5 0x83 0x99 0x7c 0xe7 0x3b 0xdf 0x99 0x17
    ++ row 0x11 0x33 0x32 0x0f 0x3b 0x6a 0xcd 0x6b 0xb5 0x61 0x20 0x57
    ++ row 0xc9 0xbd 0x5e 0x0f 0x0b 0x0b 0x0b 0x79 0xfb 0xad 0x85 0x78
    ++ row 0x11 0xfc 0x20 0xc0 0xda 0xde 0x7e 0x1c 0xbf 0xf7 0xdb 0x60
    ++ row 0x67 0x60 0x75 0x60 0x8a 0xca 0xc8 0x28 0xa9 0xb2 0xf6 0x70
    ++ row 0xe5 0x53 0x9f 0xfa 0x54 0xe9 0xe5 0x8b 0x08 0xde 0xf6 0xb6
    ++ row 0xb7 0xe1 0x4f 0x3f 0xf2 0x11 0x07 0x60 0x3e 0x7f 0x0c 0xc8
    ++ row 0xc7 0xfe 0xc7 0x9f 0x53 0x6d 0x7c 0x6c 0x93 0xed 0x98 0x33
    ++ row 0x98 0xf9 0x59 0xac 0x78 0x16 0x22 0xdb 0x89 0x68 0xad 0x17
    ++ row 0x04 0x63 0x61 0xbd 0x1e 0x80 0x39 0x80 0x52 0x1e 0x83 0x88
    ++ row 0x18 0x92 0x2d 0x05 0x21 0x2a 0xab 0x3d 0xe5 0xbe 0xd0 0x94
    ++ row 0xff 0x23 0x4b 0xe4 0xe3 0x2b 0xe3 0xcc 0x54 0x69 0x0a 0xc8
    ++ row 0x3d 0x79 0x93 0x80 0xbb 0xf3 0xa0 0xa4 0x53 0xaa 0xe8 0xac
    ++ row 0x88 0x23 0x2d 0x12 0x1c 0xc4 0xd0 0x4e 0x47 0x8f 0x7b 0x2b
    ++ row 0xc3 0x76 0xbb 0xdd 0x75 0xce 0x39 0xa5 0xd4 0x92 0xc0 0x56
    ++ row 0xff 0xda 0xbc 0x8f 0xb9 0x60 0x6d 0x92 0x24 0x48 0x92 0x04
    ++ row 0x69 0x9a 0x2d 0xf7 0xd4 0x5a 0x23 0x1c 0x1f 0xc7 0x78 0xe4
    ++ row 0x63 0x62 0x66 0x12 0x61 0xa3 0x96 0x55 0x5e 0xfc 0xb1 0x5c
    ++ row 0x5f 0xcd 0x1c 0xe5 0x56 0xa0 0xc3 0x67 0xfd 0x7b 0xfe 0xcb
    ++ row 0xc5 0xf2 0x67 0x97 0x5c 0x72 0x20 0xaa 0xd7 0x13 0xa5 0xf5
    ++ row 0x23 0x22 0xfc 0x5d 0x00 0x6b 0x88 0x68 0x2d 0x1b 0x73 0x6a
    ++ row 0xaf 0xd3 0x39 0x2b 0xe9 0xf5 0xce 0x62 0xa5 0xb6 0x69 0xcf
    ++ row 0x83 0xe7 0xfb 0xe4 0x87 0x21 0xb4 0xe7 0x55 0x5a 0x9d 0x5c
    ++ row 0x59 0x31 0x22 0x57 0x6d 0x81 0x25 0x0c 0x44 0x5d 0x03 0x2b
    ++ row 0x11 0x19 0x00 0xf7 0xd5 0x33 0x31 0x90 0xf6 0xa0 0x16 0x0e
    ++ row 0x81 0x7b 0xf3 0xd5 0xcf 0x0b 0xb2 0x7b 0x18 0xce 0x8c 0x4c
    ++ row 0x74 0x1c 0x8e 0x14 0xdd 0x93 0xc5 0xc0 0xc4 0x71 0x9c 0x96
    ++ row 0xfb 0x46 0x60 0xf1 0xee 0x6c 0x79 0x45 0xa4 0xdc 0xf8 0xba
    ++ row 0xea 0x44 0x15 0xe0 0x8a 0x08 0x94 0x52 0xf0 0x7d 0x1f 0x61
    ++ row 0x18 0xa2 0xd1 0x6c 0xa2 0x59 0x0b 0x10 0x8d 0x8f 0x13 0xd7
    ++ row 0x1b 0x59 0x23 0x5d 0xd8 0xc8 0x75 0xd5 0xd1 0x93 0xb7 0xbe
    ++ row 0xf5 0xad 0x87 0xc5 0xf2 0xea 0xb1 0xef 0xfd 0xc0 0x07 0x2c
    ++ row 0x80 0xa9 0xfc 0x71 0x1f 0x00 0x5c 0x76 0xe9 0x65 0x01 0x04
    ++ row 0x3b 0x4d 0x92 0xee 0x15 0x91 0x39 0x62 0x3a 0xd3 0x0b 0xc3
    ++ row 0x66 0x10 0x45 0x11 0x88 0x9a 0x02 0x04 0x5c 0x6c 0x79 0xa8
    ++ row 0x54 0xb9 0x29 0x8c 0x90 0xcd 0x12 0x21 0xd9 0x10 0xf5 0x49
    ++ row 0x38 0xca 0x34 0x13 0x55 0x56 0x5e 0x08 0x28 0xee 0x42 0xb5
    ++ row 0x0e 0x80 0x7b 0xf3 0xfd 0xe5 0x16 0x19 0xc8 0x2d 0x21 0x39
    ++ row 0x7a 0x0c 0xce 0xd2 0xa4 0xa2 0xab 0xdb 0x12 0x55 0xc1 0xad
    ++ row 0x32 0x35 0x4d 0x53 0xd8 0x7c 0xdf 0x27 0x63 0x4c 0xa9 0x1e
    ++ row 0x83 0x20 0xc0 0xd8 0xd8 0x18 0x6a 0xb5 0x1a 0xa2 0x28 0x82
    ++ row 0xae 0x8d 0x43 0x21 0x2b 0x7f 0x91 0x33 0x80 0x18 0x50 0xea
    ++ row 0x01 0xf4 0x2f 0x73 0x17 0xdc 0x95 0xaa 0x44 0xef 0x7a 0xf7
    ++ row 0xbb 0xe2 0x2b 0x2f 0xbf 0xe2 0x1e 0x66 0x3e 0x28 0x70 0x37
    ++ row 0x13 0xd4 0x71 0xd6 0x98 0x67 0xc5 0x9d 0xee 0xb9 0x49 0xaf
    ++ row 0x77 0x9e 0xd2 0x7a 0x93 0x17 0x04 0xf0 0xc3 0x10 0x7e 0x14
    ++ row 0x41 0x69 0x95 0xe1 0xe1 0x08 0x60 0x07 0x18 0x0b 0x31 0x76
    ++ row 0x71 0x2b 0xb9 0x64 0xbd 0x66 0x59 0xc7 0x61 0x41 0x1c 0x07
    ++ row 0x38 0x80 0xe2 0x05 0xa8 0xf9 0x03 0x50 0xdd 0x79 0x38 0x55
    ++ row 0x8e 0x0d 0xe7 0xec 0xdd 0x2b 0x9c 0x74 0x1e 0x17 0xc0 0xc3
    ++ row 0xb6 0x58 0x6b 0xed 0x00 0xcc 0x3b 0xe7 0xd0 0xe9 0x74 0x4a
    ++ row 0x90 0x8b 0x62 0x76 0x1c 0xc7 0xe8 0x76 0xbb 0x25 0xc0 0xc5
    ++ row 0x39 0xaa 0x1b 0x93 0x45 0x51 0x84 0xb1 0xb1 0xb1 0xf2 0x3e
    ++ row 0x06 0xf0 0x7c 0x48 0xda 0x43 0xea 0x8f 0x49 0x37 0x5a 0x4b
    ++ row 0xba 0x3d 0x0d 0x6e 0xcf 0x53 0xbe 0x27 0x32 0x00 0xe0 0xaa
    ++ row 0xab 0xae 0x02 0x00 0x5c 0x78 0xe1 0x85 0xc7 0x14 0xdc 0xa5
    ++ row 0x58 0x7e 0xf5 0xd5 0x57 0x83 0x88 0xca 0xf7 0x2f 0x7a 0xc7
    ++ row 0xdb 0xdb 0xc8 0x36 0xe0 0x7e 0x04 0xc0 0x9d 0x9f 0xfc 0xe4
    ++ row 0xd5 0x7b 0x0c 0x99 0x59 0x88 0x6b 0xb3 0x52 0x3b 0xad 0xb5

-- ===== src/Icons/Squawk120A.antt =====
-- `squawk120_png` of src/_icons.h, lines 5 to 142 of that file.
use upnp.Prelude.{ℕ, List, ◌++◌}
use upnp.Icons.Row.{row}

abbrev pub squawk120_png_a : List ℕ
squawk120_png_a =
    row 0x89 0x50 0x4e 0x47 0x0d 0x0a 0x1a 0x0a 0x00 0x00 0x00 0x0d
    ++ row 0x49 0x48 0x44 0x52 0x00 0x00 0x00 0x78 0x00 0x00 0x00 0x78
    ++ row 0x08 0x06 0x00 0x00 0x00 0x39 0x64 0x36 0xd2 0x00 0x00 0x00
    ++ row 0x06 0x62 0x4b 0x47 0x44 0x00 0xff 0x00 0xff 0x00 0xff 0xa0
    ++ row 0xbd 0xa7 0x93 0x00 0x00 0x00 0x09 0x70 0x48 0x59 0x73 0x00
    ++ row 0x00 0x0b 0x13 0x00 0x00 0x0b 0x13 0x01 0x00 0x9a 0x9c 0x18
    ++ row 0x00 0x00 0x00 0x07 0x74 0x49 0x4d 0x45 0x07 0xdf 0x03 0x04
    ++ row 0x12 0x35 0x18 0x49 0x81 0xc4 0x23 0x00 0x00 0x20 0x00 0x49
    ++ row 0x44 0x41 0x54 0x78 0xda 0xed 0x7d 0x79 0x94 0x5c 0x57 0x79
    ++ row 0xe7 0xef 0xfb 0xee 0x7d 0x5b 0x55 0x57 0x57 0xb7 0x76 0x4b
    ++ row 0x96 0x6c 0x4b 0x5e 0x91 0x6c 0x43 0x30 0x06 0x0c 0xc3 0x62
    ++ row 0x92 0x30 0x83 0x61 0x32 0x64 0x61 0x09 0xc3 0x24 0x87 0x84
    ++ row 0x25 0x36 0x5b 0x32 0x1c 0x33 0x40 0x60 0x32 0x19 0xcc 0x99
    ++ row 0x04 0x02 0xf6 0x78 0xc1 0xc4 0x19 0x4e 0x66 0x92 0x9c 0x98
    ++ row 0x83 0xc3 0x30 0x21 0x6c 0x06 0x63 0x63 0x02 0x18 0xf0 0x02
    ++ row 0x18 0x8c 0x37 0xd9 0xc6 0xb6 0x16 0x4b 0xea 0xb5 0xba 0x96
    ++ row 0xf7 0xde 0xbd 0xf7 0x9b 0x3f 0xde 0x52 0xaf 0xaa 0xab 0xbb
    ++ row 0x25 0x5b 0x72 0xec 0xd0 0xdf 0x39 0xa5 0x2e 0x55 0xbd 0x7a
    ++ row 0xf5 0xea 0xfe 0xee 0xef 0xdb 0xef 0x7d 0xc0 0xaa 0xac 0xca
    ++ row 0xaa 0xac 0xca 0xaa 0xac 0xca 0xaa 0xac 0xca 0xaa 0xac 0xca
    ++ row 0xaa 0xac 0xca 0xaa 0xac 0xca 0xaa 0xac 0xca 0xaa 0xac 0xca
    ++ row 0xaa 0xac 0xca 0xaa 0xac 0xca 0xaa 0xac 0xca 0xaa 0xac 0xca
    ++ row 0xaa 0xac 0xca 0xaa 0xac 0xca 0xaa 0xac 0xca 0xaa 0xac 0xca
    ++ row 0xaa 0xac 0xca 0xaa 0xac 0xca 0xbf 0x72 0x79 0xf0 0xdd 0xa7
    ++ row 0xe1 0xc1 0x77 0x9d 0xba 0xfc 0xfb 0xef 0x3e 0x6d 0xc5 0xf3
    ++ row 0xf0 0xea 0x50 0x3e 0x45 0x45 0x04 0xb2 0xc2 0xfb 0xab 0xf2
    ++ row 0x34 0x92 0x1b 0x6e 0xb8 0x01 0x37 0xdc 0x70 0xc3 0xe3 0x62
    ++ row 0xfa 0x72 0x42 0xab 0x43 0xfb 0xd4 0x00 0xf7 0x65 0x2f 0x7b
    ++ row 0x19 0x00 0xe0 0xda 0x3d 0x82 0x74 0x1c 0x68 0xee 0xde 0x83
    ++ row 0x47 0xce 0xde 0x82 0x97 0x7c 0xf8 0xdf 0x07 0xd1 0xf4 0xee
    ++ row 0x71 0x72 0x26 0x10 0x22 0x00 0xe8 0x00 0x98 0xdd 0x7e 0xe9
    ++ row 0x3d 0xae 0xf8 0xfc 0x03 0xef 0x3a 0x15 0x44 0x84 0x93 0x2e
    ++ row 0xbd 0x67 0xd1 0xb9 0xf5 0xea 0xf0 0x3e 0xb5 0xe4 0x75 0x5b
    ++ row 0x32 0xce 0x7d 0xed 0xda 0xbf 0x9a 0x78 0xc6 0x4f 0xe3 0xe7
    ++ row 0xb7 0x1b 0xdb 0xce 0xf2 0xa6 0x1f 0xdc 0xe6 0xa5 0x9d 0x26
    ++ row 0xfc 0x31 0x0b 0xe6 0x1f 0x92 0x35 0x5f 0xfd 0xf9 0x45 0x27
    ++ row 0x3e 0x78 0xc2 0x95 0x0f 0x75 0x33 0x96 0xd2 0x2a 0x83 0x9f
    ++ row 0x8a 0xf2 0x8d 0x6f 0x7c 0x03 0x22 0x52 0xb2 0x17 0x00 0xbe
    ++ row 0x72 0xf3 0xf7 0xd8 0xd6 0x26 0x27 0xeb 0x53 0xf7 0x9e 0xa5
    ++ row 0xe3 0xd6 0xeb 0xa2 0x83 0x3f 0x7b 0x69 0xe3 0xc1 0x9b 0x4e
    ++ row 0xf6 0x16 0x1e 0x23 0x21 0x06 0x20 0xb7 0x42 0xe4 0xd3 0x24
    ++ row 0xf2 0x4d 0x82 0xbb 0xfb 0xc4 0xcb 0xee 0x77 0xcb 0x7d 0xc7
    ++ row 0x2a 0x83 0x9f 0x62 0x62 0x5a 0x53 0x9e 0x9f 0x2c 0xfc 0x3a
    ++ row 0x82 0xb1 0x5f 0x0b 0x26 0xd6 0x9f 0x11 0xd4 0x83 0x2d 0x2c
    ++ row 0x0b 0x84 0xfd 0x77 0x01 0x33 0x8f 0x02 0x49 0x77 0x27 0xb4
    ++ row 0xff 0xfb 0x42 0x08 0x54 0xda 0x7b 0x18 0xc0 0xc2 0x2a 0xc0
    ++ row 0x4f 0x41 0xe6 0x02 0xc0 0xf9 0xe7 0x9f 0x3f 0xf0 0xfa 0x17
    ++ row 0xbe 0xf0 0x85 0xa8 0x5e 0x8b 0xce 0x26 0xa2 0x0b 0xfc 0x20
    ++ row 0xb8 0x20 0x6c 0x4e 0x22 0x6c 0x44 0x50 0x6c 0x40 0x4c 0x82
    ++ row 0x85 0x43 0x24 0x71 0x3b 0x02 0xf0 0x4b 0x02 0x7a 0x28 0xf5
    ++ row 0x1a 0xdf 0xba 0xef 0x8f 0xce 0xfc 0xd9 0x29 0x1f 0xbf 0xb3
    ++ row 0x03 0x20 0x0f 0xab 0x08 0x27 0x5d 0x76 0xcf 0x6a 0x98 0xf4
    ++ row 0x2f 0x1f 0x05 0x2d 0x0e 0x73 0x82 0x20 0x78 0x05 0x11 0xfd
    ++ row 0xe7 0x5a 0xad 0x76 0xce 0x78 0xa3 0x81 0x46 0x2d 0x42 0x6d
    ++ row 0x62 0x2d 0xbc 0x6d 0x67 0x81 0xb6 0xec 0x04 0xc2 0xf1 0xfc
    ++ row 0xc3 0x0e 0x80 0x9c 0x6e 0x95 0xf7 0x5b 0x4e 0x79 0x67 0x0f
    ++ row 0x1a 0x5c 0x59 0x65 0xf0 0x93 0x2d 0x37 0xdd 0x74 0x13 0x44
    ++ row 0x04 0xcc 0x19 0x9f 0x5e 0xfc 0xe2 0x17 0x97 0xef 0x7d 0xed
    ++ row 0x6b 0x5f 0xf3 0xe2 0x38 0x1e 0x0f 0x82 0xe0 0x54 0xcf 0xf3
    ++ row 0x2e 0xf0 0x7d 0xff 0x57 0x6a 0xb5 0xda 0x78 0xa3 0xd1 0x40
    ++ row 0x14 0x06 0x50 0xda 0x47 0x1a 0x36 0x80 0xb5 0xdb 0x20 0xcd
    ++ row 0x8d 0x22 0x0b 0x87 0x88 0x4c 0x0c 0x71 0x6e 0x2b 0xb1 0x3b
    ++ row 0x9f 0x44 0xee 0x06 0xf0 0x5d 0x00 0x38 0xe9 0xd2 0x7b 0x57
    ++ row 0x13 0x1d 0x4f 0x35 0x21 0xa2 0x8d 0x5a 0xeb 0xd7 0x13 0xd1
    ++ row 0x25 0xbe 0xef 0xbf 0x7c 0x6c 0x6c 0x2c 0x1a 0x1f 0x1f 0xc7
    ++ row 0xd8 0xd8 0x18 0x3c 0xcf 0x03 0x11 0xa0 0x98 0xa0 0xa2 0x71
    ++ row 0xf0 0xfa 0x1d 0xa0 0x89 0xcd 0x00 0x2b 0x90 0x33 0x0d 0x76
    ++ row 0xe6 0x19 0xec 0xd2 0x2d 0x0f 0xbf 0x73 0xbb 0x5e 0xb5 0xc1
    ++ row 0xff 0x02 0x72 0xe3 0x8d 0x37 0x02 0x00 0x5e 0xf2 0x92 0x97
    ++ row 0x0c 0xc7 0xbd 0x4c 0x44 0x1b 0x8c 0x31 0x27 0x00 0x38 0xab
    ++ row 0x56 0xab 0x5d 0xe0 0xfb 0xfe 0x8b 0xeb 0xf5 0x3a 0x8f 0x8d
    ++ row 0x8d 0x49 0x14 0x45 0xd0 0x5a 0x43 0x44 0x20 0x02 0x61 0x22
    ++ row 0x70 0x38 0x46 0xbc 0xf6 0x04 0xb8 0x99 0x47 0x45 0x66 0x1e
    ++ row 0x05 0xc4 0x12 0x89 0xab 0x03 0xb2 0xc5 0x92 0xda 0xf6 0xc8
    ++ row 0x45 0xdb 0x1e 0xde 0x7a 0xe5 0xc3 0x66 0x15 0xe0 0x27 0xd9
    ++ row 0xce 0x12 0x2d 0x8e 0x44 0x99 0x79 0x3d 0x80 0x5f 0x61 0xe6
    ++ row 0x97 0x12 0xd1 0xf3 0xea 0xf5 0xfa 0xf1 0x13 0x13 0x13 0x54
    ++ row 0xab 0xd5 0xe0 0xfb 0x3e 0x88 0x08 0xd6 0xda 0x82 0xe2 0x20
    ++ row 0x38 0x70 0x10 0x81 0xd6 0x6c 0x01 0x8d 0x6f 0x80 0x10 0x03
    ++ row 0xce 0x65 0xf6 0x56 0x70 0xbc 0x80 0x9e 0x9d 0xea 0x30 0x01
    ++ row 0xf0 0xe8 0x2a 0xc0 0xc7 0x50 0x6e 0xbe 0xf9 0x66 0x88 0x48
    ++ row 0x69 0x63 0xab 0x5e 0xf2 0x97 0xbf 0xfc 0xe5 0x48 0x29 0xb5
    ++ row 0x81 0x88 0xb6 0x89 0xc8 0xd9 0x5a 0xeb 0xe7 0x07 0x41 0x70
    ++ row 0x4e 0x10 0x04 0xa7 0x36 0x1a 0x0d 0xd4 0xeb 0x75 0xf8 0xbe
    ++ row 0x0f 0x66 0x26 0x11 0x81 0x73 0x4e 0x72 0xbf 0x89 0x20 0x0e
    ++ row 0xe4 0x47 0x50 0x6b 0xb6 0xc2 0x8d 0x6f 0x84 0x23 0x06 0x9c
    ++ row 0x05 0x89 0xc0 0x91 0xda 0x62 0x59 0x3f 0x4b 0xc0 0x0f 0x14
    ++ row 0x00 0xef 0x7e 0xe7 0xc9 0x20 0x10 0xb6 0xff 0xcf 0xfb 0x56
    ++ row 0x01 0x3e 0x06 0x36 0x75 0xd1 0x6b 0xd7 0x5c 0x73 0x0d 0x79
    ++ row 0x9e 0x77 0x02 0x33 0xbf 0x04 0xc0 0xaf 0x2b 0xa5 0x4e 0xd5
    ++ row 0x5a 0x47 0xcd 0x66 0x73 0x6c 0x62 0x62 0x42 0x7c 0xdf 0xa7
    ++ row 0xc2 0x01 0x73 0x6e 0x44 0xde 0xc2 0x39 0x90 0x17 0x42 0x4d
    ++ row 0x1e 0x07 0x37 0xbe 0x1e 0x46 0xfb 0x85 0x8e 0x80 0x23 0xde
    ++ row 0x62 0xd8 0x7f 0xa6 0x80 0xff 0xb9 0xef 0x4c 0xd3 0x2a 0x83
    ++ row 0x8f 0xa6 0x87 0x5c 0xd8 0xd9 0x17 0xbd 0xe8 0x45 0xe5 0xeb
    ++ row 0xd7 0x5f 0x7f 0xbd 0xd6 0x5a 0x1f 0x07 0xe0 0x14 0x22 0xda
    ++ row 0x01 0x60 0x9b 0xe7 0x79 0x67 0xfb 0xbe 0xff 0x6c 0xdf 0xf7
    ++ row 0xd7 0x04 0x41 0x80 0x7a 0xbd 0x8e 0x30 0x0c 0xc1 0xcc 0x90
    ++ row 0x3c 0x6e 0x12 0x11 0xca 0x27 0xca 0xe0 0x4c 0x21 0x06 0xfb
    ++ row 0x11 0xa8 0x36 0x41 0x34 0xb6 0x0e 0xd2 0x99 0x83 0x88 0x03
    ++ row 0x9c 0x5d 0xc7 0x64 0x76 0x08 0xf1 0x44 0x75 0x42 0xc8 0x2a
    ++ row 0xc0 0x47 0x8f 0xb1 0xc3 0x31 0xed 0x97 0xbe 0xf4 0x25 0x04
    ++ row 0x41 0x70 0x3c 0x80 0xe7 0x12 0xd1 0x6b 0x00 0x3c 0x9b 0x88
    ++ row 0xa2 0x30 0x0c 0x6b 0x8d 0x46 0x23 0xca 0x81 0x95 0x1c 0x58
    ++ row 0xaa 0x7e 0x7e 0x94 0x06 0x28 0x42 0x5c 0x01 0x40 0x41 0x1d
    ++ row 0x98 0xdc 0x02 0xb4 0x67 0x80 0x85 0x43 0x20 0x67 0x14 0x13
    ++ row 0x1f 0x07 0xa0 0x51 0x1c 0xbb 0xfd 0x8a 0xdd 0xab 0x0c 0x3e
    ++ row 0x52 0x29 0x4a 0x79 0xd5 0xbc 0xf1 0x70 0x4c 0x7b 0xe3 0x8d
    ++ row 0x37 0xae 0x17 0x91 0x5d 0x44 0xb4 0xd3 0x39 0x77 0xbc 0xe7
    ++ row 0x79 0x27 0x07 0x41 0xf0 0x1c 0xcf 0xf3 0xb6 0x7a 0x9e 0x87
    ++ row 0x20 0x08 0x10 0x45 0x11 0x7c 0xdf 0x87 0x52 0x8a 0x88 0xa8
    ++ row 0x50 0xc9 0x82 0x4a 0x5d 0x60 0x54 0x12 0x04 0x22 0x80 0x08
    ++ row 0x28 0xa8 0x83 0x27 0xb7 0x40 0x66 0xf6 0x42 0x16 0x0e 0x81
    ++ row 0xac 0x01 0x13 0x87 0x00 0x9a 0x0f 0x5d 0x74 0x62 0x70 0xe2
    ++ row 0x95 0x0f 0xc5 0xab 0x4e 0xd6 0x32 0xf2 0xc5 0x2f 0x7e 0x11
    ++ row 0x44 0x84 0x57 0xbc 0xe2 0x15 0x03 0xaf 0x57 0x81 0xfd 0xea
    ++ row 0x57 0xbf 0x0a 0xad 0x35 0x88 0x88 0xce 0x3f 0xff 0x7c 0xf9
    ++ row 0xfa 0xd7 0xbf 0xae 0x94 0x52 0x1b 0x99 0x79 0x27 0x11 0xfd
    ++ row 0x26 0x11 0xbd 0x8c 0x88 0xd6 0xf8 0xbe 0x1f 0xd6 0xeb 0xf5
    ++ row 0xa0 0x56 0xab 0x21 0x0c 0xc3 0xe2 0x33 0x20 0x22 0xc9 0x1d
    ++ row 0x29 0xaa 0xe6 0xa0 0xaa 0xda 0x60 0x18 0x64 0x12 0x07 0x08
    ++ row 0x81 0xfc 0x08 0xdc 0xdc 0x04 0x57 0x9b 0xc8 0x8e 0x70 0x96
    ++ row 0xd8 0x59 0x02 0x30 0x6e 0x59 0xad 0xdf 0xfd 0x8e 0x93 0xf7
    ++ row 0xef 0xb8 0xfc 0x7e 0xb3 0x0a 0xf0 0x11 0xa8 0xdc 0x61 0x79
    ++ row 0xf9 0xcb 0x5f 0x8e 0xeb 0xaf 0xbf 0xbe 0x0e 0xe0 0xe4 0xeb
    ++ row 0xaf 0xbf 0xfe 0x54 0xe7 0xdc 0xa9 0x22 0xb2 0x51 0x6b 0xbd
    ++ row 0xb1 0x56 0xab 0x9d 0x15 0x04 0xc1 0x36 0xdf 0xf7 0x3d 0xdf
    ++ row 0xf7 0x11 0x04 0x41 0xc1 0xd8 0x32 0x93 0x75 0x24 0xe9 0xcb
    ++ row 0xa1 0x23 0x00 0x1d 0x80 0xeb 0x13 0xa0 0xa0 0x9e 0x35 0x75
    ++ row 0x48 0x61 0x6f 0xa5 0x41 0x22 0x6b 0x01 0x37 0x03 0xe0 0x17
    ++ row 0x1b 0xe0 0xcf 0x7f 0xfe 0xf3 0x10 0x11 0xbc 0xfa 0xd5 0xaf
    ++ row 0x5e 0xf4 0xde 0x30 0x73 0xbf 0xf8 0xc5 0x2f 0xc2 0x39 0xc7
    ++ row 0x2a 0x17 0x00 0x1e 0x11 0xd5 0xb4 0xd6 0x3b 0x98 0xf9 0x39
    ++ row 0x00 0x5e 0x44 0x44 0xcf 0x05 0x30 0xa9 0xb5 0xe6 0x30 0x0c
    ++ row 0xfd 0xb1 0xb1 0x31 0x8e 0xa2 0x08 0x9e 0xe7 0x81 0x99 0x41
    ++ row 0x44 0x52 0x12 0x51 0x04 0x2b 0xaa 0xe3 0x91 0xb6 0x38 0x53
    ++ row 0xd1 0x50 0x5e 0x96 0x93 0xf6 0x43 0x2a 0x3f 0x2f 0x02 0x10
    ++ row 0x8d 0x5b 0x52 0x1b 0x40 0xbc 0x07 0x40 0xfb 0x17 0x1a 0x60

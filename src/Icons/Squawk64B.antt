-- ===== src/Icons/Squawk64B.antt =====
-- `squawk64_png` of src/_icons.h, lines 1484 to 1587 of that file.
use upnp.Prelude.{ℕ, List, ◌++◌}
use upnp.Icons.Row.{row}

abbrev pub squawk64_png_b : List ℕ
squawk64_png_b =
    row 0x53 0x87 0x0c 0x1e 0xf0 0xce 0xf1 0xbd 0xec 0x5d 0x9f 0xdd
    ++ row 0xd5 0xaf 0xc5 0xae 0x3b 0x63 0x32 0x98 0x8c 0x0c 0xb8 0xde
    ++ row 0x18 0x7a 0xc0 0x68 0xb5 0x32 0x16 0xf9 0x68 0x04 0xf0 0x5c
    ++ row 0x58 0x63 0x35 0x37 0xc7 0x22 0xc2 0xd3 0xec 0x86 0x8a 0xaa
    ++ row 0x3a 0xf8 0xee 0xf6 0xbf 0xc1 0xa0 0xe1 0x23 0x40 0xa4 0xa0
    ++ row 0xc4 0xdc 0x80 0xc0 0x20 0x38 0x9a 0x88 0x80 0xc9 0xa1 0x33
    ++ row 0x9d 0xd4 0xd5 0xa5 0x48 0x1e 0x54 0xac 0x50 0x9d 0x5f 0x8f
    ++ row 0x2b 0xaa 0x82 0x8a 0x25 0x01 0xf4 0x7f 0x72 0x0d 0x7a 0xc2
    ++ row 0x60 0x34 0x86 0xf4 0xdc 0x38 0x1f 0xb8 0xad 0xef 0xab 0x43
    ++ row 0x86 0xe7 0x2d 0xa8 0xde 0xca 0x66 0xdc 0x74 0x7b 0xb2 0x3f
    ++ row 0xbd 0xbf 0x59 0x67 0xb2 0x9a 0x5b 0xc1 0x10 0x01 0xb6 0x10
    ++ row 0x01 0x1c 0xc7 0x43 0xab 0x6b 0xf0 0x0a 0x68 0x2e 0xbc 0x62
    ++ row 0xe1 0x67 0x78 0x2d 0x51 0xad 0x05 0x8b 0x0f 0xdd 0xe0 0x60
    ++ row 0xf9 0x11 0xa8 0x18 0x33 0x15 0xf2 0x86 0x5e 0xcb 0x2a 0x39
    ++ row 0xc9 0xe7 0x8f 0xaa 0x38 0x81 0x0d 0x04 0xfc 0x0c 0x00 0xb3
    ++ row 0x3e 0x3e 0xba 0xa5 0x19 0x30 0x98 0xea 0x0d 0xfa 0x98 0x04
    ++ row 0x10 0x71 0x92 0xe2 0x1e 0x58 0x60 0xb0 0xb3 0xb0 0xf9 0x5d
    ++ row 0xe0 0x37 0x2f 0x50 0x87 0x8c 0xce 0x7b 0xb7 0x66 0x1d 0x9b
    ++ row 0xb1 0xec 0xb6 0x84 0x40 0x6a 0x5a 0x1f 0xc1 0x60 0xa4 0x54
    ++ row 0x84 0x4a 0xf8 0xbd 0x10 0xc0 0x09 0xcc 0x2e 0x27 0x34 0x37
    ++ row 0xb7 0x84 0x4d 0x59 0xd1 0x22 0x4c 0x50 0x47 0x15 0x18 0xa7
    ++ row 0x10 0x43 0x63 0x3c 0x2d 0x6e 0x38 0x53 0xef 0x81 0x8a 0xb1
    ++ row 0xd3 0x20 0xe7 0xea 0x6b 0xc0 0x84 0x79 0xdf 0xef 0xf1 0xb0
    ++ row 0x55 0x26 0xd3 0x66 0xfe 0x4a 0x80 0x03 0xc1 0xf0 0x9c 0x51
    ++ row 0x5d 0x4d 0x53 0x05 0x52 0x3f 0xd6 0x12 0x20 0x44 0xd9 0x08
    ++ row 0x91 0x78 0x95 0xf9 0x49 0xe8 0x7d 0x24 0xba 0x8d 0x6f 0x01
    ++ row 0xbf 0x6d 0xb1 0x3a 0xe4 0xce 0xfc 0xf7 0x4e 0x7c 0xcc 0x66
    ++ row 0xdf 0x38 0x26 0x3e 0x68 0xd0 0x0b 0x6c 0x76 0x77 0xb3 0x97
    ++ row 0x99 0xa5 0xc9 0xc8 0x43 0x7c 0x8a 0x13 0x99 0xf4 0xb2 0x55
    ++ row 0xe0 0x22 0xc1 0x72 0x0a 0x29 0xda 0x14 0xac 0x5a 0x09 0xf5
    ++ row 0x73 0xad 0x04 0xf9 0xdc 0x41 0x66 0xde 0xfb 0xc7 0xfc 0x0d
    ++ row 0xae 0xc8 0x1b 0xc8 0x5c 0xcc 0x87 0xa4 0xb4 0x03 0xc8 0xb5
    ++ row 0x06 0xd5 0xce 0x62 0x0d 0xab 0x17 0xf0 0x30 0xa3 0x9b 0x46
    ++ row 0x73 0x3d 0x8f 0xdb 0x8d 0xe4 0x86 0xf4 0x50 0x09 0x10 0xd7
    ++ row 0xcd 0x06 0x61 0xe7 0x0a 0x75 0xc8 0xd8 0xfc 0x85 0xb5 0xc5
    ++ row 0xec 0xc9 0xf5 0xa3 0xe3 0xdc 0x68 0x77 0x46 0xed 0x04 0x64
    ++ row 0xe2 0x66 0xab 0x11 0x9a 0x1a 0xdc 0xd0 0x5d 0x21 0x7d 0x98
    ++ row 0xe5 0x72 0xa1 0x36 0x73 0x27 0xbb 0x09 0xca 0xc7 0xfc 0x05
    ++ row 0xfa 0xe5 0x16 0x80 0x20 0xea 0x98 0x05 0x74 0x06 0xb0 0x2b
    ++ row 0xf7 0xa9 0xc8 0x31 0x61 0xd9 0x1c 0x29 0x6e 0x66 0xb9 0x32
    ++ row 0x53 0x40 0x25 0x40 0x8f 0x59 0x40 0xd8 0xbb 0x46 0x1d 0x72
    ++ row 0x43 0xc1 0x07 0x75 0x1b 0xd8 0x2c 0x6b 0x46 0x3a 0x4f 0xeb
    ++ row 0x05 0xc9 0x11 0xb9 0xc0 0xa2 0x41 0x07 0x3e 0x6f 0xa0 0xdb
    ++ row 0x04 0xa8 0x24 0x30 0x0e 0x94 0x7a 0x47 0xef 0xb2 0xc3 0x81
    ++ row 0x5b 0x9e 0x83 0xfe 0xd9 0xb9 0xcc 0x35 0x02 0xe1 0x32 0x35
    ++ row 0xe2 0x21 0x08 0xa5 0xda 0x68 0x04 0x40 0x0c 0x32 0x0c 0xe8
    ++ row 0x0a 0xa2 0xbe 0xed 0x97 0xa0 0x96 0xa6 0xa6 0xd0 0x3c 0xb8
    ++ row 0x12 0x46 0x85 0x00 0xe3 0xc7 0xd3 0x40 0x28 0x2f 0x51 0x87
    ++ row 0x0c 0x2d 0x58 0x74 0x72 0x07 0x9b 0x65 0xc5 0x35 0x8e 0x3a
    ++ row 0xa7 0x45 0x8e 0x97 0x3a 0xde 0x55 0xf6 0x48 0xc8 0x12 0x88
    ++ row 0x04 0x21 0xb9 0x2f 0x54 0xde 0xf0 0x7b 0x48 0xcd 0xce 0x41
    ++ row 0xd3 0x0c 0xb2 0x60 0xd7 0x0e 0x14 0x74 0x23 0xdd 0x6a 0xda
    ++ row 0x64 0xad 0x26 0x8d 0x2b 0x50 0x5c 0x21 0x0b 0x60 0x6e 0xa2
    ++ row 0x21 0xc0 0x84 0x95 0xa0 0x50 0xb9 0x55 0x7d 0x6c 0xe0 0x95
    ++ row 0x8b 0x4f 0x7d 0xc5 0x9e 0xf8 0xd7 0x10 0x7b 0x45 0x4e 0x2a
    ++ row 0x97 0xeb 0xf6 0xca 0xe0 0xf5 0x62 0x09 0xa9 0x59 0x74 0x77
    ++ row 0x9f 0x74 0x25 0x00 0x2a 0xb9 0xbb 0x5d 0x5b 0x6a 0xd3 0x0f
    ++ row 0xe1 0x1c 0x2f 0x83 0xce 0xdd 0x00 0x1c 0x82 0x25 0x12 0xfc
    ++ row 0x83 0x7e 0x02 0xd5 0x57 0x8d 0x83 0xbe 0xa9 0xa9 0x18 0x64
    ++ row 0xfd 0x51 0x03 0x68 0xf4 0x78 0xa0 0xed 0x8b 0x3e 0x16 0x94
    ++ row 0x72 0xd7 0xa0 0x00 0x25 0x72 0xbd 0x18 0x03 0xd4 0x7d 0x86
    ++ row 0xda 0x6f 0x59 0x32 0x05 0x84 0xef 0xbe 0x50 0x9f 0xca 0xbc
    ++ row 0xf2 0xc3 0xfa 0x6f 0xd8 0x2c 0x4b 0x8b 0xac 0xab 0xb3 0x32
    ++ row 0x74 0x63 0x8d 0x7a 0x75 0x1b 0x89 0x91 0xdb 0x83 0x64 0xa0
    ++ row 0x95 0x5a 0xa6 0x6f 0x84 0xf8 0x3e 0xf1 0xdd 0x5a 0x75 0xbd
    ++ row 0xa8 0x87 0x7d 0xfb 0xf6 0x41 0x70 0xce 0x6f 0x40 0xdf 0x58
    ++ row 0x07 0x06 0x51 0x86 0xda 0x51 0x13 0xc0 0x93 0x75 0x2d 0xc4
    ++ row 0x25 0x24 0x80 0x14 0xd0 0xa6 0xc0 0xf6 0x01 0x8c 0x61 0xd3
    ++ row 0xb8 0x43 0x67 0x16 0xa0 0xf6 0x93 0x2b 0x50 0x7c 0xc1 0x5d
    ++ row 0x27 0xcb 0x2a 0xd4 0x2f 0x08 0x3a 0xd0 0x9b 0x42 0xe1 0xcd
    ++ row 0xfa 0xfe 0x63 0x20 0x1c 0xaf 0x50 0x1f 0x4b 0x1a 0xb8 0xe4
    ++ row 0xf4 0x09 0xf6 0xe4 0xa2 0x42 0xeb 0xa3 0x18 0xc1 0xa7 0xf7
    ++ row 0x89 0x13 0xd0 0x55 0x39 0x96 0x36 0xb9 0x90 0x29 0x05 0xab
    ++ row 0x7f 0xbd 0x5c 0x30 0x2a 0x85 0x44 0xe4 0xaa 0x45 0xd6 0xde
    ++ row 0x5a 0xa9 0xda 0xb7 0x13 0x86 0x6c 0x98 0x1a 0xda 0x9d 0xf1
    ++ row 0x48 0xc8 0xcd 0x53 0x21 0x3e 0x2d 0x93 0xa5 0x2e 0x2a 0x91
    ++ row 0x71 0x6a 0x76 0x8e 0x65 0x01 0xd1 0x41 0x6b 0x9b 0xed 0xc9
    ++ row 0xa0 0x93 0x88 0x05 0x92 0xdf 0xeb 0x0b 0x8f 0xd7 0x61 0xcd
    ++ row 0x21 0x2a 0x45 0x93 0x63 0xce 0xbd 0xc0 0xb5 0x9c 0x56 0x9f
    ++ row 0xb2 0x16 0x2e 0x6b 0x6c 0x0e 0xcf 0xf2 0x6e 0xbe 0xb9 0x3f
    ++ row 0xfa 0xd2 0x9d 0xa2 0xc0 0x3d 0xc8 0x0b 0x7c 0xbe 0xd3 0xa1
    ++ row 0x13 0x6c 0xd6 0xa0 0xd0 0xf8 0xdb 0x8f 0x0c 0x5d 0x21 0x40
    ++ row 0x2b 0x94 0x7f 0xeb 0x4b 0x17 0x42 0x6e 0xf9 0x32 0xe6 0x19
    ++ row 0xc7 0x72 0xc6 0x40 0xdd 0xa0 0xbb 0xa0 0x5f 0x66 0x66 0xbb
    ++ row 0xb1 0xcc 0xe2 0x30 0xff 0x4b 0xac 0xda 0x0b 0xb0 0x76 0x2c
    ++ row 0x32 0x3a 0x23 0xa0 0xdd 0x18 0xda 0x08 0x21 0x78 0x81 0x3e
    ++ row 0xa1 0xf9 0x3d 0xe0 0x9a 0x79 0x07 0xb0 0xea 0x93 0xd7 0xb9
    ++ row 0x07 0x2f 0xad 0x37 0x47 0x0c 0x6f 0x95 0xc5 0x85 0x36 0x7b
    ++ row 0x42 0xd1 0x90 0x47 0x1a 0x0e 0xee 0x9e 0x68 0x7d 0xe1 0xc3
    ++ row 0x5c 0x83 0xc2 0x60 0x67 0xdf 0xde 0xd4 0x31 0xdf 0x54 0x1e
    ++ row 0x94 0x13 0xbf 0x2d 0xab 0xf7 0x96 0x7c 0xea 0xc4 0x78 0xc0
    ++ row 0x79 0x33 0x06 0x06 0x9a 0x6e 0x1a 0xd7 0x42 0xe1 0x0a 0xd3
    ++ row 0x96 0x1f 0x57 0x45 0xd2 0xe9 0x45 0x3c 0xe9 0x4d 0xa2 0x01
    ++ row 0x8b 0x5a 0xb4 0x0a 0x2a 0x6d 0x55 0xd0 0x12 0x06 0xa1 0xa0
    ++ row 0x1f 0x4b 0x60 0x7f 0x07 0x19 0x28 0x46 0x6c 0x80 0x08 0x97
    ++ row 0x11 0x71 0xf1 0x78 0x9d 0x00 0xc2 0xc9 0xef 0xc0 0xb5 0x60
    ++ row 0x22 0xeb 0xf7 0xeb 0xad 0xdf 0x5e 0xb5 0xe8 0x78 0x46 0x4c
    ++ row 0x02 0x14 0x20 0xf4 0x79 0x2b 0x73 0xed 0xda 0xb5 0x7b 0x0c
    ++ row 0x9d 0xd4 0xdd 0x2a 0x70 0xda 0x7f 0xd7 0xd6 0xd6 0xc2 0x99
    ++ row 0x33 0x67 0x96 0x4f 0x9a 0x34 0xe9 0x9e 0xc8 0x31 0x6f 0xbe
    ++ row 0xf9 0x26 0xbd 0x8f 0x7e 0x57 0xf7 0x55 0x0f 0x64 0xa4 0x10
    ++ row 0x15 0x1d 0x81 0xee 0x96 0x85 0x8c 0x04 0x8c 0x16 0xb3 0x88
    ++ row 0x51 0xdb 0x86 0x07 0x47 0x35 0x7f 0x00 0x4b 0x66 0x22 0x43
    ++ row 0x26 0x77 0x89 0xb1 0xd7 0x88 0x45 0x00 0xdd 0xd0 0x9b 0x4d

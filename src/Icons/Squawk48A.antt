-- ===== src/Icons/Squawk48A.antt =====
-- `squawk48_png` of src/_icons.h, lines 1164 to 1270 of that file.
use upnp.Prelude.{ℕ, List, ◌++◌}
use upnp.Icons.Row.{row}

abbrev pub squawk48_png_a : List ℕ
squawk48_png_a =
    row 0x89 0x50 0x4e 0x47 0x0d 0x0a 0x1a 0x0a 0x00 0x00 0x00 0x0d
    ++ row 0x49 0x48 0x44 0x52 0x00 0x00 0x00 0x30 0x00 0x00 0x00 0x30
    ++ row 0x08 0x06 0x00 0x00 0x00 0x57 0x02 0xf9 0x87 0x00 0x00 0x09
    ++ row 0xbf 0x49 0x44 0x41 0x54 0x78 0xda 0xed 0x58 0x0b 0x50 0x54
    ++ row 0xd7 0x19 0xfe 0xef 0xbe 0xef 0xee 0xb2 0xbb 0xec 0x0a 0x0b
    ++ row 0x02 0x06 0x8c 0x40 0xbb 0x8a 0xd0 0x8a 0x52 0x95 0xc9 0x8c
    ++ row 0x38 0x0d 0x91 0xf8 0xa8 0xda 0x1a 0xd1 0x26 0xed 0x4c 0x1b
    ++ row 0x9d 0xe9 0xa4 0x93 0xb4 0x79 0xb5 0xa9 0x51 0x4c 0x04 0x93
    ++ row 0x9a 0x44 0xe4 0x11 0xf2 0xa2 0x49 0xc4 0xc6 0x47 0xeb 0x4c
    ++ row 0x63 0xda 0x4a 0xb1 0x4a 0x10 0xb4 0x71 0x22 0xa2 0x49 0x7c
    ++ row 0x60 0x03 0x12 0x85 0x58 0x8b 0x08 0x75 0x65 0x9f 0x77 0xef
    ++ row 0xed 0xff 0x5f 0xf7 0xe2 0x65 0xe5 0xb5 0xd6 0x8a 0xce 0xf8
    ++ row 0xcf 0x9c 0x39 0xf7 0x9e 0x73 0xee 0x39 0xdf 0xf7 0xbf 0xce
    ++ row 0x39 0x97 0x81 0x3b 0x5c 0x98 0xd1 0x06 0x70 0x97 0xc0 0x68
    ++ row 0x03 0xb8 0x4b 0x60 0xb4 0x01 0xdc 0x25 0x30 0xda 0x00 0x46
    ++ row 0x2a 0xc7 0xd6 0x2f 0x51 0x9a 0x2e 0x1c 0x33 0x24 0x15 0x37
    ++ row 0x5f 0xbe 0xe3 0x08 0xec 0xd9 0xb3 0xe7 0x25 0x7b 0x63 0xe5
    ++ row 0x2f 0x0d 0x9d 0xc7 0x99 0x80 0x4a 0xbf 0x38 0xe5 0xe5 0x43
    ++ row 0xbb 0xee 0x18 0x02 0xb5 0xb5 0xb5 0xab 0xd5 0x6a 0xf5 0x33
    ++ row 0x89 0xf6 0x48 0x83 0xef 0xad 0xe5 0xc0 0x03 0x78 0x94 0x7e
    ++ row 0x77 0x0c 0x5a 0xe2 0x3f 0xb7 0x35 0x01 0x04 0xae 0x66 0x18
    ++ row 0xe6 0x15 0xa5 0x52 0xf9 0xe3 0xc4 0xc4 0x44 0x93 0x42 0xa1
    ++ row 0x80 0xc0 0xbe 0x72 0x08 0x34 0xee 0x84 0x5e 0xd3 0xb8 0x82
    ++ row 0x49 0x2f 0xec 0x59 0x7b 0xdb 0x12 0xa8 0xab 0xab 0x4b 0x46
    ++ row 0xf0 0xbb 0x8c 0x46 0x63 0x42 0x4c 0x4c 0x8c 0x41 0x10 0x04
    ++ row 0xb1 0x9d 0xff 0xaa 0x11 0xb8 0x1d 0x4f 0x83 0xdb 0x38 0xb6
    ++ row 0xd5 0xb1 0xae 0xf6 0xde 0xdb 0x8e 0xc0 0xfe 0xfd 0xfb 0xc7
    ++ row 0xa2 0xa6 0x8b 0x10 0xf0 0xf7 0xec 0x76 0xbb 0x29 0x32 0x32
    ++ row 0x92 0x51 0xa9 0x54 0x10 0x08 0x04 0xc0 0xeb 0xf5 0x02 0x04
    ++ row 0xfc 0xe0 0x2b 0x5d 0x00 0x42 0x80 0x13 0x18 0x9e 0x33 0xa1
    ++ row 0x1b 0x5d 0xb9 0x2d 0x08 0x34 0x34 0x34 0x44 0x61 0xf5 0x02
    ++ row 0x96 0x7c 0x04 0xad 0x37 0x9b 0xcd 0xe8 0xf6 0x6a 0xa0 0x22
    ++ row 0x89 0xcf 0xe7 0x13 0x89 0x70 0x3b 0x7f 0x0d 0x7c 0xcb 0x27
    ++ row 0xd0 0x6b 0x8c 0x5b 0x31 0xa9 0xb0 0xf6 0xed 0x51 0x25 0x50
    ++ row 0x5f 0x5f 0x3f 0x0d 0x7d 0xfc 0x09 0x9e 0xe7 0xf3 0x2c 0x16
    ++ row 0x0b 0x8b 0x45 0x83 0xae 0x23 0x02 0x27 0xcd 0xcb 0x05 0xc7
    ++ row 0x88 0x56 0xe0 0x3e 0x7e 0x13 0x02 0x9f 0x6c 0x05 0xa7 0x39
    ++ row 0xe9 0x83 0xf4 0x75 0x35 0xcb 0x6f 0x29 0x01 0xf4 0x6d 0x25
    ++ row 0x56 0x53 0x11 0xf4 0x02 0xac 0x97 0x23 0x50 0x03 0x6a 0x3b
    ++ row 0x12 0x7d 0x9d 0x21 0xe0 0x54 0x34 0x1a 0x0d 0x50 0xc0 0x92
    ++ row 0x48 0xbe 0x2f 0x89 0x48 0xe0 0xc8 0x9f 0xc0 0x5f 0xfd 0x2a
    ++ row 0x5c 0x31 0x25 0x7e 0x96 0x5e 0xb4 0x37 0xfd 0xff 0x46 0xa0
    ++ row 0xa6 0xa6 0x86 0x41 0x20 0x49 0xf8 0x38 0x19 0x01 0x67 0xa1
    ++ row 0x46 0xb3 0x51 0x8b 0x69 0x5a 0xad 0x36 0x60 0x30 0x18 0xcc
    ++ row 0x58 0x94 0x92 0x8b 0x10 0x60 0xd2 0x78 0xa8 0xd6 0x43 0x09
    ++ row 0x88 0xb1 0x70 0xfa 0x20 0xf8 0xb7 0x3e 0x09 0x6e 0x43 0x4c
    ++ row 0xf7 0xa4 0x0d 0x07 0xad 0x37 0x44 0xa0 0xe5 0xb1 0x09 0x3a
    ++ row 0xac 0xb0 0x08 0xde 0x7b 0xcb 0x5a 0xdc 0xd4 0x56 0x5d 0x5d
    ++ row 0x3d 0x5d 0xc7 0xb2 0x13 0x10 0xe4 0x78 0x81 0xe7 0xa7 0xe3
    ++ row 0x62 0x33 0x11 0xa0 0x4f 0xaf 0xd7 0x2b 0x59 0x96 0x35 0x21
    ++ row 0x70 0x06 0x8b 0xa8 0x65 0xb9 0x10 0x68 0xd2 0xfa 0x70 0xc2
    ++ row 0x71 0x1c 0xf8 0xfd 0x7e 0x10 0x2e 0xb5 0x83 0xff 0xcd 0x65
    ++ row 0xc0 0xa9 0xf5 0xdc 0x37 0x4a 0x4e 0xa8 0xfb 0xcd 0x76 0x68
    ++ row 0xd9 0x84 0xef 0x30 0xc0 0x57 0x0a 0x82 0xc2 0x11 0x0e 0x21
    ++ row 0x05 0xef 0x87 0x80 0x3d 0x1e 0x5c 0x73 0x7f 0x03 0xb1 0xc9
    ++ row 0xdf 0x04 0x06 0x4d 0x4d 0x60 0x07 0x13 0x22 0x21 0x69 0x5c
    ++ row 0x72 0x9d 0x50 0x6d 0x87 0x82 0x77 0xbb 0xdd 0x57 0x2d 0xe4
    ++ row 0x73 0x81 0xff 0xd5 0x39 0x52 0x97 0x91 0x91 0x80 0x63 0x94
    ++ row 0x54 0x0a 0xc0 0x38 0x0c 0xdc 0xbf 0xc1 0x9a 0xf6 0x2d 0xf0
    ++ row 0x77 0x5f 0x80 0xc1 0xa7 0xbc 0x5e 0x3c 0x3d 0x4e 0x68 0x4f
    ++ row 0xcb 0x87 0xd8 0x79 0x2b 0x40 0xa7 0xd1 0xd2 0xaa 0xfd 0x49
    ++ row 0xa2 0x9b 0xa0 0x2b 0x89 0x45 0x72 0x95 0x81 0x40 0x87 0xb6
    ++ row 0x11 0x78 0x29 0x03 0x89 0x2e 0x27 0xf0 0x10 0x78 0x79 0x96
    ++ row 0xd4 0x3d 0x96 0x69 0x5c 0x1a 0xf7 0x23 0x8e 0x57 0x96 0xe8
    ++ row 0xf9 0x6e 0x13 0xb5 0xe8 0x58 0xad 0x27 0xee 0xbe 0x59 0x3a
    ++ row 0x3f 0x46 0x7d 0x38 0xe2 0xbd 0x7c 0x19 0x4e 0xb7 0xa3 0x89
    ++ row 0x97 0x14 0x42 0xec 0xb8 0x04 0x60 0x7c 0x7e 0x11 0xb4 0x54
    ++ row 0x08 0xf8 0x60 0xa0 0xe5 0x16 0x90 0xf7 0x93 0xcb 0x10 0x01
    ++ row 0x02 0x4f 0x45 0x72 0x35 0xe1 0x95 0xfb 0xc5 0x3d 0x81 0x57
    ++ row 0xa8 0x52 0x98 0x83 0xdf 0x4f 0x14 0x22 0xa0 0x4b 0xec 0x60
    ++ row 0x8d 0x06 0x88 0x4e 0x88 0x13 0x34 0xd9 0x0b 0x19 0x6f 0x5b
    ++ row 0x53 0x58 0x04 0x84 0x00 0x0f 0xa7 0x0f 0x7d 0x01 0x3d 0xcb
    ++ row 0xcb 0x20 0x35 0x3d 0x1d 0x54 0x5c 0x60 0x48 0xb7 0x90 0x83
    ++ row 0x0d 0x25 0x40 0x60 0x45 0x7f 0x0f 0xb6 0xd1 0x33 0xb5 0xf5
    ++ row 0xc5 0xd0 0xa6 0xf9 0x68 0x72 0x27 0x78 0x74 0x91 0x59 0x4c
    ++ row 0xc3 0xa2 0x71 0xc2 0x18 0xb6 0x17 0xcc 0x63 0x6c 0xa0 0x37
    ++ row 0x19 0x41 0x49 0x39 0x38 0x6b 0x1e 0x04 0x3e 0xfd 0x4b 0x70
    ++ row 0x72 0x05 0x48 0x71 0x27 0xa5 0xb7 0x7e 0xda 0x93 0xb5 0x9d
    ++ row 0xfa 0xbc 0x05 0xfe 0x99 0xf7 0x12 0x4c 0x99 0x35 0x1b 0x94
    ++ row 0x7e 0x6e 0x50 0x17 0x11 0x37 0xa4 0xa0 0x66 0xe9 0x5d 0x6e
    ++ row 0x29 0x6a 0x1f 0x28 0x7d 0xd2 0x3e 0xa0 0xd3 0xe9 0x44 0x02
    ++ row 0x8a 0xd7 0x7f 0x00 0x70 0xa5 0x0b 0x5c 0x7a 0xfb 0xfd 0x4c
    ++ row 0xfd 0x82 0x78 0x21 0x35 0x39 0x12 0x08 0x87 0x52 0xa5 0x14
    ++ row 0x8b 0xc2 0x1e 0x07 0x67 0x0f 0x1c 0x08 0xcb 0x02 0x24 0xe8
    ++ row 0x8a 0x70 0x2a 0x6f 0x3d 0x64 0xce 0x7e 0x00 0x14 0xa8 0x35
    ++ row 0x49 0x68 0x71 0x39 0x68 0x7a 0x27 0x90 0x72 0xf7 0xa0 0x77
    ++ row 0x4c 0xad 0x7d 0xae 0x26 0x17 0x8f 0xc7 0x23 0xf6 0x13 0x01
    ++ row 0xd1 0x1d 0x2b 0x96 0x02 0x38 0x3b 0xe1 0x8a 0x31 0x6e 0x09
    ++ row 0x53 0x37 0x6f 0xac 0x60 0x33 0x6b 0xc0 0xe3 0xc2 0x4d 0xc2
    ++ row 0xe7 0x01 0x6b 0x54 0x04 0xb0 0x63 0x2c 0xe0 0xec 0xe8 0xb8
    ++ row 0xaa 0x75 0xdd 0xd5 0x6c 0xc2 0x7b 0xbc 0xc3 0x12 0xf0 0x78
    ++ row 0x04 0x68 0x9e 0x5b 0x04 0x93 0xb3 0x73 0xc0 0x8f 0x59 0x83
    ++ row 0x0b 0x9a 0x9e 0x00 0x4b 0xa0 0xe5 0x5a 0xef 0xb3 0x62 0xd0
    ++ row 0xc4 0x04 0x9e 0x48 0x84 0xa6 0x5a 0x97 0xcb 0x25 0xd6 0x98
    ++ row 0x8e 0xc5 0x3e 0x75 0xd9 0x42 0xd1 0x85 0xbc 0x5a 0xf3 0x42
    ++ row 0xa6 0x36 0x2f 0x46 0xe0 0xdd 0xae 0xbe 0xc1 0xac 0x5e 0x0b
    ++ row 0x46 0x8b 0x0e 0x54 0x82 0x6b 0x58 0xc0 0xa1 0xd2 0xdb 0xcb
    ++ row 0xc3 0x89 0xb9 0xeb 0x21 0x39 0xe3 0xdb 0xe0 0xbe 0xec 0xec
    ++ row 0x07 0x2e 0x54 0x06 0x22 0x20 0xa5 0x57 0xdc 0x3b 0x42 0xe6
    ++ row 0xed 0x15 0x6b 0x6a 0xa7 0x31 0xda 0x8d 0x79 0x62 0x10 0xa3
    ++ row 0xdc 0xc7 0xec 0x7d 0x20 0x4a 0x00 0xef 0x35 0xed 0xaa 0xd0
    ++ row 0x85 0x58 0x56 0x01 0x4e 0xa7 0x1f 0x86 0x13 0x46 0x5c 0xf4
    ++ row 0x5a 0xd1 0x9a 0x58 0x68 0xce 0x7b 0x11 0xc6 0x3b 0x26 0x81
    ++ row 0x27 0xb8 0xa8 0x9c 0xc0 0x70 0x64 0xa4 0x7e 0x72 0x15 0x29
    ++ row 0xe3 0x90 0xe5 0x24 0x0b 0x88 0xd6 0xc1 0xe4 0xae 0x7b 0x2d
    ++ row 0x57 0xfa 0x34 0x93 0xf9 0xfb 0x77 0xc7 0x08 0xac 0xd2 0x07
    ++ row 0x5e 0x1f 0x05 0x98 0xb4 0xd0 0xb5 0xe7 0x91 0x92 0x10 0x81

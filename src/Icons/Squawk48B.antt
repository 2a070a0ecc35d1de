-- ===== src/Icons/Squawk48B.antt =====
-- `squawk48_png` of src/_icons.h, lines 1271 to 1376 of that file.
use upnp.Prelude.{ℕ, List, [], ◌∷◌, ◌++◌}
use upnp.Icons.Row.{row}

abbrev pub squawk48_png_b : List ℕ
squawk48_png_b =
    row 0xc4 0x8e 0x85 0xf6 0x39 0xb8 0x99 0x25 0x24 0x80 0x3f 0xe8
    ++ row 0x72 0x72 0xed 0xf6 0xfb 0x6e 0x00 0x32 0xf2 0xb1 0x78 0x3e
    ++ row 0x12 0x6b 0x72 0x39 0x8a 0x01 0x12 0x6a 0x03 0x9f 0x1b 0xd8
    ++ row 0xd2 0x05 0xd2 0x27 0x0e 0xe6 0x58 0x7e 0xcc 0xdb 0x3d 0xdd
    ++ row 0xde 0x9f 0x5a 0x23 0xe8 0xb4 0xc7 0x13 0x91 0x80 0x77 0xd1
    ++ row 0x6a 0xe5 0xac 0x47 0x9f 0x82 0xb3 0xe7 0xce 0x0e 0x4b 0xe0
    ++ row 0x5c 0xfd 0x6e 0xf0 0xbd 0xf3 0x0c 0x6a 0x11 0x0d 0x99 0x9e
    ++ row 0x03 0x3d 0x59 0xcb 0xc0 0x6a 0xb3 0x41 0x20 0xb8 0x91 0x85
    ++ row 0x63 0x01 0xb9 0x90 0x2b 0x91 0xcf 0x8b 0x07 0xb8 0xe0 0x5c
    ++ row 0xa2 0x05 0x7a 0x2f 0x81 0xe1 0xad 0x7c 0x69 0xd8 0x3d 0xcc
    ++ row 0x89 0x7c 0xeb 0x04 0x4e 0xc1 0x16 0x5f 0xea 0x74 0xe5 0x7a
    ++ row 0x7d 0xbc 0xb8 0x45 0xba 0x1f 0x59 0x07 0xb6 0xe4 0x8c 0xbe
    ++ row 0xc9 0xe4 0x69 0x2d 0x34 0xc5 0x7d 0x7d 0xe8 0x6f 0x30 0xf1
    ++ row 0x50 0xa9 0x68 0xb1 0x13 0xb3 0x56 0x41 0x64 0x72 0x3a 0x68
    ++ row 0x30 0x5f 0x0b 0xc1 0xcc 0x43 0xe3 0xf9 0xe0 0xa6 0x38 0x18
    ++ row 0x99 0xc1 0xac 0x44 0x41 0x4d 0x73 0x88 0xa9 0x13 0x49 0x12
    ++ row 0x21 0xe5 0xbf 0x4e 0x81 0x7e 0xeb 0x13 0xd2 0x10 0x5b 0xdf
    ++ row 0x17 0xbc 0xd7 0x3d 0xf3 0xdc 0x6b 0x0f 0xdb 0x9c 0x4d 0x35
    ++ row 0xd9 0x27 0x73 0x0a 0x7e 0x61 0x77 0x64 0xaa 0x06 0x02 0x2d
    ++ row 0x7f 0xd6 0xe0 0x9e 0xe1 0x7c 0xf7 0x71 0xc1 0xde 0x7b 0x16
    ++ row 0xba 0xe2 0xb3 0xf8 0xf3 0x8e 0x05 0x01 0x83 0xc5 0xa6 0x40
    ++ row 0xed 0xa9 0xa4 0x33 0x3d 0xf9 0x32 0x01 0x90 0x52 0xe6 0x40
    ++ row 0x79 0x7e 0x20 0x02 0x03 0x91 0xa1 0xd8 0x50 0x37 0xd7 0x01
    ++ row 0xfb 0xd7 0xf5 0xc0 0x2b 0xd5 0x81 0xf4 0xed 0x97 0x54 0x8c
    ++ row 0x0c 0x58 0x02 0x8d 0xc3 0x0f 0xdb 0xb6 0x6c 0xd9 0x72 0x3c
    ++ row 0x21 0x21 0xc1 0x31 0x14 0x01 0xf2 0xcb 0xb6 0xb6 0xb6 0xd3
    ++ row 0x38 0xf1 0x0a 0x7c 0x65 0xb1 0x5d 0x47 0x05 0x9f 0xa3 0x71
    ++ row 0x8e 0x24 0x6c 0x1f 0x4f 0x73 0xa2 0xf6 0xef 0x41 0xed 0x29
    ++ row 0x30 0x83 0x30 0x58 0x22 0x50 0x8b 0x0a 0x22 0x45 0x44 0xb8
    ++ row 0x01 0xdc 0x6c 0x30 0x0b 0x49 0xca 0xd0 0x1d 0xde 0x01 0xba
    ++ row 0x03 0xef 0x81 0x97 0x8d 0xec 0xce 0xac 0x3a 0x6b 0x95 0x13
    ++ row 0xa0 0x1d 0xc4 0x81 0x83 0x3f 0xaf 0xaa 0xaa 0xfa 0x02 0x09
    ++ row 0x4c 0x1c 0x8c 0x40 0x4f 0x4f 0x0f 0x5c 0xbc 0x78 0x11 0xa2
    ++ row 0xa3 0xa3 0xb9 0xa6 0xa6 0xa6 0xd4 0xb5 0x6b 0xd7 0xb6 0xc2
    ++ row 0x10 0x52 0x51 0x51 0x61 0xc7 0xef 0xa6 0xe0 0xdc 0x33 0x90
    ++ row 0x4b 0x0e 0x3e 0x4f 0x34 0x99 0x4c 0x4a 0xbc 0x81 0x19 0xa4
    ++ row 0x3b 0xef 0x60 0x56 0xe9 0xb3 0x36 0x82 0x17 0xf7 0x89 0xda
    ++ row 0x72 0xd0 0x1d 0xaf 0x06 0x97 0xc1 0x7e 0x2c 0xeb 0xfd 0x2f
    ++ row 0x33 0xfa 0x8d 0xc2 0x49 0x52 0xb0 0x6a 0x43 0x02 0x8d 0x48
    ++ row 0x60 0x52 0x28 0x01 0xca 0xc7 0x5d 0x5d 0x5d 0x62 0x60 0xc5
    ++ row 0xc6 0xc6 0x42 0xd2 0xb6 0x9f 0x88 0xed 0x69 0x1f 0x74 0x86
    ++ row 0x75 0xaf 0x28 0x2f 0x2f 0x37 0x63 0xb5 0x08 0xdd 0xec 0x67
    ++ row 0x68 0xa1 0x14 0xba 0x4a 0xe2 0x5d 0x58 0x27 0x65 0x1d 0x3e
    ++ row 0xe4 0x20 0x49 0xed 0xe4 0x3e 0x24 0x96 0x0f 0x9f 0x07 0x75
    ++ row 0xc7 0x67 0x44 0x60 0x3b 0x12 0x58 0x1a 0x4a 0x80 0x4e 0xa4
    ++ row 0x46 0x24 0x50 0x1d 0x1f 0x1f 0x9f 0x46 0x6d 0x74 0x90 0x72
    ++ row 0x3a 0x9d 0x62 0xa1 0x63 0x2d 0x05 0x12 0xf6 0x89 0x19 0x21
    ++ row 0x7a 0xeb 0x23 0x20 0xe8 0x4c 0xf0 0xbe 0x36 0x2f 0x09 0xad
    ++ row 0xd0 0x16 0x0e 0x09 0x49 0xca 0xca 0xca 0xec 0xa8 0xd9 0xc7
    ++ row 0x70 0xed 0x9f 0x13 0x09 0x9b 0xcd 0xa6 0x25 0xc0 0xb4 0xae
    ++ row 0x44 0x84 0x34 0x4f 0x31 0xc5 0xf0 0x1c 0x44 0xfd 0xee 0x61
    ++ row 0x60 0x38 0x0f 0xf8 0xb4 0xa6 0xc7 0xa7 0xfc 0xbe 0xa3 0xe4
    ++ row 0x3a 0xcd 0xe1 0x44 0x11 0x95 0x95 0x95 0xfb 0xd0 0xb4 0x99
    ++ row 0xc1 0x77 0x1e 0x81 0x2b 0x22 0x22 0x22 0x20 0x2a 0x2a 0x0a
    ++ row 0xa8 0x96 0x2e 0xde 0x96 0x2d 0x3f 0xc4 0x49 0x03 0x90 0x54
    ++ row 0xdc 0xfc 0x3f 0x5f 0x4d 0x4b 0x4b 0x4b 0x2d 0xe8 0x5e 0xcf
    ++ row 0xe1 0x7a 0x2b 0xac 0x56 0xab 0x1e 0x8b 0x5a 0x72 0x2d 0x11
    ++ row 0x3c 0xdd 0x97 0xcf 0x1f 0x07 0xdb 0x47 0xab 0xe1 0xea 0xee
    ++ row 0x23 0x8c 0x4b 0xfb 0xa3 0xf3 0xdc 0xb0 0x0b 0x6f 0xdc 0xb8
    ++ row 0xf1 0xcf 0x19 0x19 0x19 0xb9 0x68 0x42 0x95 0x64 0x4e 0x12
    ++ row 0x22 0xd3 0xbe 0xf7 0x3d 0xb0 0x7e 0xfc 0x46 0xd8 0x2e 0x34
    ++ row 0x94 0x14 0x17 0x17 0x5b 0x51 0xe3 0xbf 0x45 0x05 0x2e 0x8e
    ++ row 0x8b 0x8b 0xb3 0xc8 0x7f 0xad 0x98 0x8e 0x6c 0x07 0x53 0xd3
    ++ row 0x4e 0xd2 0xfe 0x05 0xd4 0x7e 0x0c 0xc0 0x08 0x7e 0x6c 0xad
    ++ row 0x59 0xb3 0xc6 0x9e 0x9a 0x9a 0xda 0x9c 0x94 0x94 0x64 0x96
    ++ row 0xda 0x88 0x04 0x9a 0x9a 0x4c 0xec 0xdf 0xb6 0x6d 0xdb 0x72
    ++ row 0x1c 0xf3 0x87 0x9b 0x45 0x40 0x92 0x4d 0x9b 0x36 0x3d 0x88
    ++ row 0x16 0xd9 0x8c 0x8a 0x32 0xa3 0xd5 0xc5 0x23 0x6a 0xcc 0xae
    ++ row 0xe7 0x40 0xd3 0xd5 0x0a 0x1e 0xfd 0x98 0x77 0xa6 0x6e 0x3e
    ++ row 0xf3 0xe8 0x88 0x08 0x90 0x14 0x15 0x15 0xad 0xca 0xce 0xce
    ++ row 0xfe 0x15 0x6a 0xc5 0x20 0x59 0x80 0x34 0x63 0xb7 0xdb 0x29
    ++ row 0xa8 0x7d 0x0d 0x0d 0x0d 0x9b 0x3b 0x3b 0x3b 0x57 0x61 0x1c
    ++ row 0x5c 0xb8 0xc9 0x24 0xe8 0x4f 0x5d 0x0d 0xba 0x53 0x4a 0xb4
    ++ row 0xbb 0x43 0x1d 0x53 0xfd 0x22 0x08 0x8c 0x82 0x67 0x04 0x3e
    ++ row 0x15 0xdd 0xe7 0xcb 0x11 0x13 0x40 0x0d 0x6b 0x31 0x2b 0x9d
    ++ row 0x71 0x38 0x1c 0xb1 0x92 0x05 0x48 0x28 0xb8 0xcc 0x66 0x33
    ++ row 0x9d 0x12 0x85 0x8e 0x8e 0x0e 0xef 0xd1 0xa3 0x47 0x3f 0x3c
    ++ row 0x7f 0xfe 0xfc 0xb3 0x48 0xe4 0xab 0x9b 0x48 0xc2 0x82 0x89
    ++ row 0xf6 0xf0 0xd4 0x23 0xe5 0x89 0x6c 0x6f 0xa7 0xd2 0xcd 0x5a
    ++ row 0x0b 0xa6 0x55 0xb5 0xad 0x95 0xfa 0x47 0xec 0xbb 0x05 0x05
    ++ row 0x05 0x0b 0x67 0xce 0x9c 0xf9 0x2e 0xfd 0xd3 0xe9 0xfb 0x58
    ++ row 0x46 0x84 0x82 0x9b 0xca 0xc9 0x93 0x27 0x7b 0xd1 0x22 0x29
    ++ row 0x48 0xe2 0xeb 0x9b 0x48 0x42 0xa5 0x73 0x5f 0xca 0x4d 0xec
    ++ row 0x68 0x38 0x93 0x5b 0xba 0xf7 0x84 0xbc 0x2f 0xac 0xe0 0x2b
    ++ row 0x29 0x29 0xf9 0x34 0x33 0x33 0x73 0x8a 0xfc 0x3b 0xf9 0x86
    ++ row 0x83 0x9b 0x13 0x9d 0x59 0x7c 0x18 0x17 0x39 0x48 0x20 0xfc
    ++ row 0x2b 0xdd 0x0d 0x48 0x58 0x04 0xd0 0x95 0x26 0x63 0x46 0xda
    ++ row 0x8f 0xbe 0x6f 0xbe 0x6e 0x22 0x24 0x82 0x79 0x9c 0xab 0xab
    ++ row 0xab 0xdb 0xbd 0x72 0xe5 0xca 0xf9 0xb7 0x02 0x7c 0xd8 0x04
    ++ row 0x48 0x36 0x6c 0xd8 0xb0 0x79 0xfa 0xf4 0xe9 0x0f 0x21 0x60
    ++ row 0x8d 0xfc 0x10 0x86 0x41 0xed 0xc6 0x63 0xc5 0xbe 0xf6 0xf6
    ++ row 0xf6 0xc5 0xa8 0xfd 0xe1 0xef 0x9f 0xa3 0x45 0x00 0xad 0x10
    ++ row 0x95 0x9c 0x9c 0x7c 0x1a 0xd3 0xaa 0x85 0xde 0x29 0x1b 0xe1
    ++ row 0x11 0xc3 0x75 0xf8 0x48 0xe3 0xc6 0xa7 0x9f 0x7c 0x6a 0xd5
    ++ row 0xad 0x02 0x7e 0xc3 0x04 0x48 0x0a 0x0b 0x0b 0x9f 0x9d 0x31
    ++ row 0x63 0xc6 0xf3 0xb8 0xb9 0x29 0x5a 0x5b 0x5b 0x2f 0xd4 0xff
    ++ row 0xe3 0x60 0xc1 0x1b 0x65 0xe5 0x7b 0xb1 0x8b 0x93 0x95 0x80
    ++ row 0xac 0xe6 0x65 0x65 0xd4 0x08 0x90 0xc6 0x69 0x37 0xb6 0x2c
    ++ row 0x7a 0x68 0xc9 0xb4 0xdc 0x9c 0xd9 0x85 0x78 0x3e 0xda 0x51
    ++ row 0x5e 0x51 0x51 0x7b 0xa6 0xa5 0xa5 0x33 0x08 0x8e 0x7e 0xf4
    ++ row 0x76 0xcb 0xc0 0xf3 0xc1 0x67 0xa9 0x0c 0x75 0xd1 0xa6 0xcd
    ++ row 0x4a 0x08 0x97 0x64 0x38 0x04 0xb4 0x41 0x02 0xb4 0x90 0x72
    ++ row 0xce 0xfc 0x79 0xd6 0xdd 0xbb 0x3e 0xba 0x32 0x80 0x86 0x43
    ++ row 0x8b 0x10 0x52 0x0f 0x85 0x25 0x9c 0xdf 0xb1 0xa2 0xfc 0x17
    ++ row 0x10 0x5f 0x6d 0x92 0xfa 0xb6 0x5a 0xb2 0x00 0x00 0x00 0x00
    ++ 0x49 ∷ 0x45 ∷ 0x4e ∷ 0x44 ∷ 0xae ∷ 0x42 ∷ 0x60 ∷ 0x82 ∷ []

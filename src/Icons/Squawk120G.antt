-- ===== src/Icons/Squawk120G.antt =====
-- `squawk120_png` of src/_icons.h, lines 833 to 968 of that file.
use upnp.Prelude.{ℕ, List, [], ◌∷◌, ◌++◌}
use upnp.Icons.Row.{row}

abbrev pub squawk120_png_g : List ℕ
squawk120_png_g =
    row 0xd4 0xb1 0xfe 0x81 0x90 0xba 0xee 0x27 0xbb 0xde 0x7c 0xdd
    ++ row 0x1b 0x3f 0x78 0x09 0x7e 0xfc 0x1b 0x63 0x20 0xa2 0x01 0xd5
    ++ row 0x7c 0xd4 0x9c 0xac 0xe5 0x9c 0x1d 0xe7 0x1c 0xde 0xfb 0xde
    ++ row 0xf7 0xb6 0x9d 0x73 0xbb 0x93 0x24 0xf9 0x71 0x92 0x24 0xf7
    ++ row 0xf5 0x32 0x19 0x7d 0x2b 0xf3 0xa1 0xf3 0x14 0x3d 0x5a 0xdd
    ++ row 0x6e 0x17 0xad 0x56 0x0b 0x73 0x73 0x73 0x58 0x58 0x58 0x80
    ++ row 0xb5 0x16 0xb5 0x5a 0x0d 0x9b 0x37 0x6f 0xc6 0xc9 0x27 0x9f
    ++ row 0xac 0x77 0xed 0xda 0xb5 0x65 0xfb 0xf6 0xed 0xe7 0x37 0x9b
    ++ row 0xcd 0xb7 0xf9 0xbe 0xff 0x9f 0x00 0xbc 0xf4 0xe3 0x1f 0xff
    ++ row 0xf8 0xa6 0xa7 0x0b 0xc0 0xd5 0x42 0xff 0xbb 0xdf 0xf8 0x6a
    ++ row 0x9b 0xfa 0x63 0xdf 0x21 0x6b 0xfe 0x5a 0x9c 0xbb 0x22 0x55
    ++ row 0xe1 0xff 0x6e 0x35 0x4f 0xf8 0xf6 0xfc 0xe4 0xf6 0x6f 0xa5
    ++ row 0x7e 0xfd 0x6f 0x00 0x5c 0x21 0x44 0x57 0x09 0xe1 0x5b 0x6f
    ++ row 0xfc 0xe0 0x25 0x25 0x2d 0x96 0x72 0x31 0x8f 0xba 0x8a 0x2e
    ++ row 0x1c 0x9b 0xab 0xae 0xba 0xaa 0xb4 0x7d 0x71 0x1c 0x4f 0x01
    ++ row 0xb8 0xd5 0x18 0xb3 0xa5 0xdb 0xed 0xd6 0x99 0x79 0x73 0xa3
    ++ row 0xd1 0x80 0x52 0x6a 0xa4 0xb3 0x35 0xaa 0xa5 0xc7 0x18 0x43
    ++ row 0xbd 0x5e 0xaf 0xb0 0xcf 0x08 0xc3 0x50 0xea 0xf5 0x3a 0x9a
    ++ row 0xcd 0x26 0x39 0xe7 0x7c 0xcf 0xf3 0x36 0x5a 0x6b 0x37 0x3a
    ++ row 0xe7 0xa2 0x6e 0xb7 0xeb 0x44 0x64 0x1a 0xc0 0xfe 0xa7 0x03
    ++ row 0xbe 0x6f 0x7d 0xcb 0x5b 0xf0 0x97 0xd7 0x5c 0x03 0x00 0x78
    ++ row 0xcb 0x9b 0xdf 0x8c 0x3f 0xfc 0xed 0x57 0x1d 0x04 0x70 0xf0
    ++ row 0xff 0xfc 0xf9 0xfb 0x1f 0x92 0x06 0xdd 0x93 0x06 0xe3 0xcf
    ++ row 0xf6 0xe3 0x79 0x9a 0x38 0x74 0xf7 0x4f 0x1a 0x73 0x0f 0xdd
    ++ row 0xf5 0xac 0xcf 0xcc 0xfd 0xbc 0xf8 0xec 0x1d 0xaf 0x5d 0x0f
    ++ row 0x32 0xdd 0x25 0x75 0xb1 0x3e 0x76 0x93 0xb2 0x0f 0x52 0x1c
    ++ row 0xc7 0x46 0x6b 0xfd 0x1d 0xe7 0x9c 0x6e 0xb5 0x5a 0x67 0x39
    ++ row 0xe7 0x36 0xd7 0x6a 0xb5 0x45 0xb6 0x68 0xb9 0x42 0x42 0x71
    ++ row 0x9c 0x31 0xa6 0x2c 0x47 0x56 0xd4 0x37 0x26 0x27 0x27 0xe1
    ++ row 0x79 0x1e 0x9c 0x73 0x27 0x4c 0x4f 0x4f 0xbf 0xd0 0x39 0x77
    ++ row 0x0b 0x80 0x5b 0xf1 0x34 0x92 0x61 0xbb 0x9c 0x92 0x7f 0x50
    ++ row 0xab 0xa0 0x6b 0xb5 0x79 0xd0 0xda 0x04 0x4e 0xf9 0x2d 0x88
    ++ row 0x0c 0xe9 0xe1 0xe5 0xd7 0x50 0x3c 0xa9 0x65 0x99 0x2b 0xae
    ++ row 0xb8 0xe2 0x14 0x00 0xff 0xad 0x5e 0xaf 0xbf 0x6a 0xd3 0xa6
    ++ row 0x4d 0xb5 0xb1 0xb1 0x31 0x1e 0xda 0x56 0x68 0xf8 0x3e 0xbb
    ++ row 0x23 0x63 0xca 0x22 0x8b 0x47 0x44 0x88 0xa2 0x08 0xe3 0xe3
    ++ row 0xe3 0x14 0x45 0x11 0x9c 0x73 0xb8 0xfb 0xee 0xbb 0xe5 0xee
    ++ row 0xbb 0xef 0x7e 0xb0 0xd3 0xe9 0xfc 0xd7 0x8b 0x2f 0xbe 0xf8
    ++ row 0x6f 0xf1 0x34 0x93 0xcf 0x5c 0xf2 0x87 0x00 0x01 0xaf 0x7d
    ++ row 0xff 0x27 0x96 0x3d 0xee 0xd6 0x37 0x1c 0x0f 0xe3 0x45 0xa8
    ++ row 0xb5 0xf6 0xe1 0xac 0x7f 0x58 0x58 0xf2 0xb8 0x27 0x35 0xf5
    ++ row 0xe7 0x9c 0x9b 0x12 0x91 0x9b 0x9d 0x73 0xe3 0xed 0x76 0xfb
    ++ row 0x85 0x00 0x9a 0x63 0x63 0x63 0xd0 0x5a 0xcb 0x4a 0x89 0x8a
    ++ row 0x2a 0xbb 0xab 0xdb 0x24 0x59 0x6b 0x4b 0x36 0xe7 0xd2 0x03
    ++ row 0x30 0x87 0xa1 0xd6 0x95 0xa7 0x8d 0xd0 0x91 0x1e 0xbe 0xfc
    ++ row 0x07 0x8e 0x29 0xc0 0xc3 0x09 0x87 0x24 0x49 0x16 0x98 0xf9
    ++ row 0xbb 0xc6 0x98 0xf1 0x76 0xbb 0x7d 0x3a 0x11 0x35 0xa3 0x28
    ++ row 0x82 0x52 0x8a 0x44 0x06 0x77 0x42 0xa9 0x82 0x58 0x6d 0xdc
    ++ row 0xab 0xdc 0x9b 0x77 0xe0 0xae 0x64 0xed 0x76 0x1b 0x9d 0x4e
    ++ row 0x07 0xbd 0x5e 0xef 0x61 0x00 0xb7 0x88 0xc8 0xde 0xa7 0x23
    ++ row 0xbe 0x2b 0x31 0xb7 0x90 0x73 0xfe 0xee 0xd1 0xc3 0x3a 0xee
    ++ row 0x98 0x02 0x3c 0x6c 0x63 0xdf 0xf3 0x9e 0xf7 0x24 0x00 0x7e
    ++ row 0x74 0xc5 0x15 0x57 0x34 0x8c 0x31 0xaf 0x60 0xe6 0xed 0xcd
    ++ row 0x66 0x53 0x3c 0xcf 0xe3 0xe5 0xe6 0xee 0x12 0xd5 0x27 0xaa
    ++ row 0xe6 0xaf 0x0f 0x1c 0x38 0x80 0x87 0x1f 0x7e 0x18 0x9d 0x4e
    ++ row 0xe7 0x07 0x00 0xae 0xb5 0xd6 0xde 0x85 0x55 0x39 0xb6 0x00
    ++ row 0x2f 0x55 0xda 0x8b 0xe3 0xf8 0x41 0xa5 0xd4 0x2d 0x69 0x9a
    ++ row 0x4e 0x76 0x3a 0x9d 0xd3 0x01 0xf8 0x61 0x18 0x82 0x99 0x25
    ++ row 0xaf 0x11 0xd3 0x70 0xc3 0xfd 0x70 0xc7 0x66 0x71 0xbb 0xd7
    ++ row 0x34 0x4d 0x71 0xe0 0xc0 0x01 0x4c 0x4f 0x4f 0xef 0x9f 0x9f
    ++ row 0x9f 0xbf 0xa3 0xdb 0xed 0x7e 0x9d 0x99 0x7f 0xfc 0xfe 0xf7
    ++ row 0xbf 0x7f 0x76 0x15 0xde 0x27 0xc9 0x06 0x0f 0xdb 0x57 0x66
    ++ row 0x9e 0x27 0xa2 0xaf 0x38 0xe7 0xfc 0xf9 0xf9 0xf9 0x6d 0x22
    ++ row 0xe2 0xe7 0x49 0x8c 0x92 0xf5 0xcb 0xdd 0xe3 0x81 0x99 0xcb
    ++ row 0xbe 0xae 0x99 0x99 0x19 0x3c 0xfa 0xe8 0xa3 0x71 0xa7 0xd3
    ++ row 0xb9 0xd9 0x5a 0xfb 0x57 0xce 0xb9 0x1f 0x11 0xd1 0xdc 0x2a
    ++ row 0xb4 0x4f 0x22 0xc0 0xc3 0xaa 0xba 0xd3 0xe9 0xb4 0xa3 0x28
    ++ row 0xfa 0x61 0x9a 0xa6 0x9b 0x9d 0x73 0xbf 0xec 0x79 0xde 0x84
    ++ row 0x31 0x46 0x38 0x6f 0x5d 0xc9 0x8f 0x97 0xfc 0x2f 0x15 0xb6
    ++ row 0x37 0xef 0x08 0x21 0x11 0x41 0xb7 0xdb 0xc5 0xec 0xec 0x6c
    ++ row 0x6f 0x7e 0x7e 0xfe 0xbe 0x85 0x85 0x85 0x5b 0x16 0x16 0x16
    ++ row 0xae 0xb7 0xd6 0xde 0x7e 0xf1 0xc5 0x17 0x4f 0x55 0xb3 0x6a
    ++ row 0x4f 0xc5 0x5c 0xf4 0xbf 0x3a 0x80 0x87 0xe5 0x03 0x1f 0xf8
    ++ row 0x80 0x03 0x30 0x7b 0xe9 0xa5 0x97 0xde 0xa5 0x94 0xfa 0x71
    ++ row 0x92 0x24 0x13 0xbd 0x5e 0xef 0x38 0x22 0xd2 0x45 0x5b 0xcf
    ++ row 0x28 0xf6 0x17 0x9d 0x9d 0x69 0x9a 0xa2 0xd5 0x6a 0xf5 0xf6
    ++ row 0xed 0xdb 0xf7 0xd0 0xc2 0xc2 0xc2 0x97 0xb5 0xd6 0xff 0xcb
    ++ row 0xf3 0xbc 0x07 0x82 0x20 0xb0 0x4b 0x79 0xde 0xbf 0xa8 0x72
    ++ row 0xd4 0x7e 0xfd 0x6f 0x9e 0x90 0x9d 0xea 0xba 0x9f 0x1f 0x7e
    ++ row 0x5d 0xf6 0xca 0x2b 0xaf 0x5c 0x6b 0xad 0x7d 0x79 0xa3 0xd1
    ++ row 0x78 0x75 0xad 0x56 0xfb 0xb5 0x46 0xa3 0xe1 0x35 0x9b 0x4d
    ++ row 0xc9 0x7b 0xb6 0x08 0x40 0x71 0x93 0x67 0x01 0x40 0xbd 0x5e
    ++ row 0x0f 0x71 0x1c 0x23 0x8e 0xe3 0x9f 0x77 0x3a 0x9d 0x3b 0xa6
    ++ row 0xa6 0xa6 0xbe 0x39 0x3b 0x3b 0xfb 0xed 0x1d 0x3b 0x76 0xdc
    ++ row 0xf6 0x9a 0xd7 0xbc 0xc6 0x61 0x55 0x8e 0x1d 0x83 0x0b 0x60
    ++ row 0xdf 0x70 0x12 0x90 0x3a 0x60 0x6f 0x97 0x70 0xcf 0x1c 0x30
    ++ row 0x93 0x08 0xcc 0x12 0x98 0xef 0xdd 0xbb 0x77 0x6e 0xed 0xda
    ++ row 0xb5 0x37 0xf6 0x7a 0xbd 0xe3 0x8c 0x31 0xe7 0x2b 0xa5 0xd6
    ++ row 0xe4 0x71 0x71 0xc1 0x3c 0x2a 0x12 0x1a 0xc6 0x18 0x69 0xb5
    ++ row 0x5a 0x34 0x3f 0x3f 0xff 0x58 0xab 0xd5 0xfa 0x5e 0xbb 0xdd
    ++ row 0xfe 0x92 0xb5 0xf6 0x1f 0xdf 0xf7 0xbe 0xf7 0x0d 0xac 0x69
    ++ row 0x09 0xc3 0x10 0xbd 0x5e 0x6f 0x15 0xd9 0x63 0xa5 0xa2 0x35
    ++ row 0x83 0x1c 0xa0 0x34 0x65 0x37 0x5a 0xab 0x6c 0x16 0x4b 0x28
    ++ row 0x16 0xdb 0xe4 0xff 0xbf 0xe4 0x92 0x4b 0x04 0x40 0xfb 0x83
    ++ row 0x1f 0xfc 0xe0 0xc3 0xeb 0xd6 0xad 0xfb 0x49 0x14 0x45 0x67
    ++ row 0x75 0xbb 0xdd 0x66 0xbd 0x5e 0x27 0xcf 0xf3 0x8a 0x72 0x21
    ++ row 0xcd 0xcf 0xcf 0xa3 0xdd 0x6e 0xb7 0xe6 0xe7 0xe7 0x6f 0x9b
    ++ row 0x99 0x99 0xb9 0xf5 0xb1 0xc7 0x1e 0xbb 0xe3 0xbe 0xfb 0xee
    ++ row 0xfb 0xe9 0xe7 0x3e 0xf7 0x39 0x9b 0xff 0x86 0xb0 0x98 0x0c
    ++ row 0xbd 0x5e 0x6f 0x60 0xe7 0xdd 0xa1 0x87 0x43 0xb6 0x3a 0x72
    ++ row 0x15 0xe0 0xc7 0x2b 0xb1 0x25 0x4e 0x1c 0x54 0xcf 0x02 0xa9
    ++ row 0x2b 0x5b 0xb9 0x0b 0x70 0x55 0xfe 0x9d 0x2a 0x7f 0x08 0x00
    ++ row 0x77 0xd7 0x5d 0x77 0x4d 0xef 0xdc 0xb9 0xf3 0xf6 0x30 0x0c
    ++ row 0xc7 0xa2 0x28 0x7a 0xa6 0x52 0x8a 0x94 0x52 0x70 0xce 0xb9
    ++ row 0x38 0x8e 0x93 0x03 0x07 0x0e 0x24 0x07 0x0f 0x1e 0xbc 0x7f
    ++ row 0xdf 0xbe 0x7d 0xd7 0xdf 0x71 0xc7 0x1d 0xdf 0xbe 0xe9 0xa6
    ++ row 0x9b 0xf6 0x58 0x6b 0x3b 0x00 0x26 0x88 0x68 0x42 0xb2 0xbd
    ++ row 0x87 0x8a 0x0d 0x33 0x6d 0xfe 0x7c 0xd4 0xc3 0x56 0x8e 0xfb
    ++ row 0x85 0x10 0x75 0xb4 0x4f 0x38 0xe1 0x13 0xcd 0x24 0xe0 0xc7
    ++ row 0x7a 0x42 0x53 0x31 0x28 0x95 0xf2 0x0e 0x51 0xaa 0x02 0xb0
    ++ row 0x07 0x20 0xc8 0x99 0x17 0x4e 0x4f 0x4f 0x7b 0xc6 0x18 0xbb
    ++ row 0x6e 0xdd 0xba 0x2d 0x61 0x18 0x9e 0x0e 0x00 0xa9 0x31 0xe8
    ++ row 0x74 0x3a 0xfb 0xa7 0xa7 0xa7 0x6f 0xbb 0xff 0xbe 0xfb 0xfe
    ++ row 0xf9 0x8e 0x3b 0xee 0xf8 0xf6 0x1d 0xb7 0xdf 0x7e 0xf7 0x6d
    ++ row 0xb7 0xdf 0x3e 0x93 0x2f 0x85 0xf1 0x01 0x84 0x44 0xe4 0xa3
    ++ row 0x7f 0xb7 0x2f 0x0f 0x4b 0xdf 0x55 0x21 0xbf 0x45 0x18 0xcc
    ++ row 0x2f 0x12 0x83 0x8f 0x3a 0xc0 0x35 0x4d 0xb4 0x60 0x40 0x33
    ++ row 0x09 0xd0 0x36 0x03 0xea 0x79 0x58 0x4d 0xeb 0xe2 0xd1 0x6e
    ++ row 0xb7 0xcd 0xee 0xdd 0xbb 0xdb 0xbb 0x76 0xed 0x6a 0x34 0x9b
    ++ row 0xcd 0xf5 0x00 0x54 0x9a 0xa6 0x07 0x5b 0xad 0xd6 0x0f 0xf6
    ++ row 0xec 0xd9 0xf3 0xad 0x6f 0x7c 0xe3 0x86 0xef 0x7c 0xf1 0x4b
    ++ row 0x5f 0xbe 0x73 0xdf 0xbe 0x7d 0x33 0x26 0x6b 0xf7 0xa8 0xde
    ++ row 0x56 0x6c 0x78 0xb7 0x51 0x3b 0x82 0xc5 0xa8 0xa8 0x69 0xfb
    ++ row 0x8b 0xc4 0x60 0x7d 0xf4 0x19 0x9c 0xdd 0x08 0xa5 0x63 0x20
    ++ row 0xb3 0xfd 0x81 0x75 0x39 0xa8 0xc5 0xe0 0xa7 0xc8 0x76 0xf1
    ++ row 0xe1 0xca 0x63 0x7e 0xf7 0x03 0x0f 0xfc 0x63 0x18 0x86 0xb7
    ++ row 0x8e 0x45 0x41 0x5d 0xc1 0x49 0xab 0xdd 0x9d 0x7a 0xe8 0xd1
    ++ row 0xbd 0x87 0xee 0xbd 0xef 0xfe 0x79 0x2c 0x6e 0xc3 0x19 0x65
    ++ row 0x5f 0xab 0xaa 0x58 0x2a 0xea 0xb8 0xfa 0x7c 0x38 0x2d 0x3a
    ++ row 0xb8 0xf5 0xed 0x6a 0x98 0xb4 0xbc 0xfc 0xea 0x71 0x44 0xb1
    ++ row 0x03 0x3f 0xdc 0x16 0x7a 0x70 0x61 0x60 0xfb 0x98 0x2a 0x83
    ++ row 0x07 0x9e 0x33 0x33 0xe7 0x61 0x51 0xb1 0x99 0x75 0xa1 0xc6
    ++ row 0xab 0xab 0xa4 0x97 0xda 0xfa 0xb1 0x7f 0x0f 0x9b 0xc5 0xf6
    ++ row 0x75 0xf8 0x7d 0x59 0x02 0xdc 0x7f 0xb5 0x76 0xf9 0xff 0x03
    ++ row 0xd3 0x1f 0x9e 0x54 0x69 0x23 0x58 0xe7 0x00 0x00 0x00 0x00
    ++ 0x49 ∷ 0x45 ∷ 0x4e ∷ 0x44 ∷ 0xae ∷ 0x42 ∷ 0x60 ∷ 0x82 ∷ []

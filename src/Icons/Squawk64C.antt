-- ===== src/Icons/Squawk64C.antt =====
-- `squawk64_png` of src/_icons.h, lines 1588 to 1689 of that file.
use upnp.Prelude.{ℕ, List, [], ◌∷◌, ◌++◌}
use upnp.Icons.Row.{row}

abbrev pub squawk64_png_c : List ℕ
squawk64_png_c =
    row 0xac 0x82 0x34 0x7c 0xbd 0x1d 0x1c 0x2b 0x9f 0x67 0xdd 0x3e
    ++ row 0x83 0xa3 0xe4 0xea 0x0f 0x8e 0xdc 0xd4 0x21 0x01 0x0a 0xa8
    ++ row 0x22 0x24 0x60 0x57 0x2c 0x02 0xb4 0x16 0x71 0xfa 0xf4 0x69
    ++ row 0xa8 0xab 0xab 0x63 0xe6 0x8f 0xe3 0xe5 0xf1 0xe3 0xc7 0xf3
    ++ row 0xd0 0x0d 0x51 0xc8 0xa1 0x55 0xf9 0x31 0x92 0x32 0x02 0x75
    ++ row 0x1f 0x8d 0xea 0x25 0x5b 0xec 0x76 0xd1 0xea 0xb0 0x5b 0x48
    ++ row 0x07 0xca 0x1e 0x92 0xbf 0x93 0xba 0xa4 0x4d 0xe9 0x8c 0x16
    ++ row 0xa0 0x64 0x00 0xf3 0xee 0x8f 0xc1 0xbe 0xe1 0x0d 0xd6 0x0e
    ++ row 0xea 0x0c 0xff 0x28 0xfa 0xb0 0xee 0xc9 0xae 0x10 0xe0 0xfa
    ++ row 0xe4 0x93 0x4f 0x4e 0x75 0x14 0x03 0x3c 0x18 0x71 0x09 0xb8
    ++ row 0x1b 0xd3 0x0e 0xa5 0x9c 0x61 0xa5 0x7f 0x64 0xf7 0x0a 0x17
    ++ row 0xd5 0x9e 0xf5 0x07 0x57 0x24 0x25 0x09 0x4f 0x3f 0x15 0x74
    ++ row 0xc2 0xc3 0x68 0x25 0xf9 0x36 0x97 0xcb 0x6c 0x75 0x3a 0x45
    ++ row 0x62 0x96 0x36 0x3a 0x32 0x1d 0xac 0xde 0x8f 0xfe 0x2a 0x5e
    ++ row 0xaf 0x03 0x41 0xf9 0x16 0x60 0x2f 0x9b 0x0f 0xd6 0x5d 0x2b
    ++ row 0xd5 0x5b 0x8f 0x60 0x00 0x9c 0xdf 0x29 0x01 0x24 0x6b 0xd6
    ++ row 0xac 0x91 0x23 0x09 0xa0 0x73 0x4b 0x4b 0x0b 0x99 0x3a 0x6e
    ++ row 0x96 0x42 0x5f 0x8b 0xac 0x58 0x88 0xf4 0xeb 0xd7 0x0f 0x52
    ++ row 0x57 0x4c 0x04 0xd9 0x68 0x87 0xcc 0xe9 0x3b 0xce 0xe9 0x27
    ++ row 0x77 0x24 0x03 0x83 0x34 0xff 0x28 0x6a 0x3c 0xd1 0xe2 0x70
    ++ row 0x98 0x1c 0xf1 0xf1 0x66 0x9e 0xb6 0xd5 0x2c 0x88 0x06 0x40
    ++ row 0x66 0xb5 0x45 0x5b 0x77 0xe0 0x71 0xc7 0xc8 0x85 0xb6 0x38
    ++ row 0x90 0xb8 0x6c 0x0a 0xe8 0x8f 0x97 0xab 0xb7 0x6e 0x44 0x02
    ++ row 0x4a 0xbb 0x4c 0x80 0xea 0x02 0xb4 0xc5 0x24 0x53 0x6f 0xc2
    ++ row 0x32 0x53 0xfd 0x12 0x43 0xe4 0x24 0x25 0x25 0x81 0xfa 0x6f
    ++ row 0x2e 0x71 0xe9 0x04 0x56 0xfc 0x64 0xcc 0xac 0xf8 0x5e 0xfe
    ++ row 0x39 0x20 0x11 0x66 0xf4 0xe9 0x27 0x11 0xe8 0x93 0x16 0xa7
    ++ row 0xd3 0x64 0x8b 0x73 0x19 0xd9 0x76 0x9c 0x88 0x70 0x7b 0x21
    ++ row 0xbc 0x3b 0xc3 0xf2 0x93 0x37 0x29 0x1f 0x42 0x7c 0x2d 0xd0
    ++ row 0x6f 0xfe 0x03 0x64 0x36 0x0a 0x64 0xb9 0x0f 0x12 0x70 0xb2
    ++ row 0x4b 0x04 0x94 0x94 0x94 0x14 0x1f 0x38 0x70 0xe0 0x56 0xb3
    ++ row 0xd9 0x5c 0x8b 0xa0 0x9d 0x81 0x40 0x80 0x15 0xdd 0xf4 0x0b
    ++ row 0x3a 0x01 0x8b 0x1a 0x3a 0xab 0x42 0x51 0xd7 0xb3 0x67 0x35
    ++ row 0xc4 0xa1 0xaf 0x9d 0x0b 0x17 0xe8 0x84 0x08 0xfa 0x73 0xf4
    ++ row 0x34 0x36 0x1f 0xb5 0xb8 0x9c 0xe4 0x1a 0x7a 0xf6 0x42 0x0c
    ++ row 0x9a 0xb4 0x2b 0xe5 0xf4 0x06 0x65 0x47 0x86 0xfe 0xff 0xed
    ++ row 0x0e 0x48 0x2c 0x9e 0xc6 0xda 0x92 0x20 0x56 0x0d 0x5e 0x72
    ++ row 0x2a 0x3b 0xac 0x73 0x57 0x5f 0xf8 0xfa 0xeb 0xaf 0x53 0x34
    ++ row 0x79 0xc6 0xe5 0x72 0x3d 0x9b 0x9c 0x9c 0x0c 0xaa 0x5b 0xa8
    ++ row 0xc0 0x49 0xc8 0x0d 0xe8 0x2f 0x4e 0x71 0x71 0x71 0x3d 0x06
    ++ row 0xc3 0x04 0xcc 0x04 0xc1 0xae 0xce 0x7f 0x16 0x44 0xc4 0x61
    ++ row 0xdd 0x82 0xe1 0x9d 0x1b 0xef 0x4a 0x49 0xb2 0x8b 0x46 0x63
    ++ row 0xbb 0x31 0xf1 0x9b 0xdf 0x06 0xc7 0xbe 0xff 0xa8 0xca 0xbe
    ++ row 0x56 0xf8 0x51 0xc3 0x63 0xdd 0x26 0x40 0x21 0xc1 0x82 0xac
    ++ row 0x1f 0xcc 0xcf 0xcf 0x4f 0x11 0x45 0x91 0x8b 0xac 0xdd 0x09
    ++ row 0x3c 0xfd 0xce 0xda 0xb6 0x6d 0x1b 0xd4 0xd4 0xd4 0x8c 0x40
    ++ row 0x02 0x3e 0xfb 0xbe 0x09 0xd0 0x10 0xf1 0x23 0x74 0x8d 0x55
    ++ row 0x66 0xa7 0xa3 0x8f 0xc5 0xe9 0x68 0x93 0xb6 0x52 0x97 0x4e
    ++ row 0x06 0x7d 0xfd 0x11 0xf5 0xf2 0x3a 0x34 0xff 0xcd 0x3d 0x22
    ++ row 0x40 0x21 0xe1 0x81 0xb8 0xb8 0xb8 0x85 0xa9 0xb8 0xa9 0xd1
    ++ row 0x82 0x27 0xa1 0x4f 0x5d 0x29 0x29 0x29 0x2c 0x30 0x96 0x96
    ++ row 0x96 0x56 0xa3 0xcb 0xdc 0x83 0x24 0x6c 0x39 0x8f 0x24 0xd8
    ++ row 0x90 0x84 0x0f 0xb0 0xc8 0x1a 0x65 0x4f 0x4a 0xb4 0x53 0xfe
    ++ row 0x37 0x9e 0xa8 0x84 0xd4 0x95 0xa1 0xbf 0xc2 0x58 0x01 0x1e
    ++ row 0xe6 0xa5 0x40 0x1a 0x12 0x10 0x4e 0x67 0x3d 0x21 0x80 0x9e
    ++ row 0xd9 0x92 0x93 0x93 0x33 0xcc 0xa2 0xf9 0x10 0xa1 0x75 0x03
    ++ row 0x74 0x13 0x96 0x1e 0xcb 0xcb 0xcb 0xe1 0xf0 0xe1 0xc3 0xb4
    ++ row 0x01 0x9f 0x8e 0x44 0x7c 0x7a 0xbe 0x88 0x78 0x6b 0xde 0xbc
    ++ row 0xe7 0xb1 0xfc 0xfd 0x9d 0x3d 0x29 0xc1 0xd6 0xef 0xd3 0xbf
    ++ row 0x83 0xf5 0xd0 0x4e 0xf5 0xd6 0x2f 0x10 0xfc 0x62 0xed 0xd8
    ++ row 0x1e 0x05 0x2a 0x24 0x61 0x28 0x06 0xc5 0xad 0xb9 0xb9 0xb9
    ++ row 0xed 0x8a 0x1d 0xf5 0x4f 0x0c 0x65 0x05 0xfa 0xe7 0xd7 0xd8
    ++ row 0xd8 0x08 0x55 0x55 0x55 0x70 0xe8 0xd0 0xa1 0xcf 0x31 0x7d
    ++ row 0xbe 0x84 0x44 0x2c 0x3f 0x4f 0x24 0xcc 0x4e 0x39 0xba 0xe5
    ++ row 0xe1 0xf4 0x2f 0x97 0xb1 0xa0 0x10 0x14 0x0c 0xcb 0x84 0xa0
    ++ row 0xf7 0x7e 0xed 0xea 0xf7 0x98 0x00 0x85 0x84 0x05 0xe8 0x06
    ++ row 0x0f 0xa1 0x3b 0xb4 0xbb 0xa7 0x75 0x09 0xca 0x12 0x64 0x29
    ++ row 0x54 0x26 0xef 0xd9 0xb3 0x07 0x8e 0x1d 0x3b 0xf6 0x27 0x24
    ++ row 0xe1 0xc5 0xf3 0x41 0xc2 0x92 0x17 0x9f 0xb8 0xde 0xda 0x70
    ++ row 0xf4 0xfe 0xe4 0xc3 0x9f 0xad 0xd5 0x7b 0x1b 0xfe 0x1d 0x09
    ++ row 0xfe 0x6c 0x09 0xe8 0x8b 0x00 0x0f 0xe6 0xe5 0xe5 0x99 0x71
    ++ row 0x83 0x13 0x75 0x1e 0xed 0x77 0x3b 0xaa 0x15 0xa8 0x80 0xc2
    ++ row 0x0c 0xf1 0x35 0x12 0x90 0x75 0x3e 0x08 0xe8 0x8a 0x9c 0x55
    ++ row 0xae 0x46 0x12 0x9e 0x4e 0x4c 0x4c 0x7c 0x89 0x02 0x1f 0x17
    ++ row 0x73 0xa3 0x12 0xea 0x27 0x97 0x20 0x22 0xd6 0xad 0x5b 0xb7
    ++ row 0x09 0x09 0x18 0xd9 0x9d 0xf7 0x5c 0xc8 0x04 0x18 0x10 0xe0
    ++ row 0x7e 0xb4 0x82 0x0c 0xdc 0xb9 0x71 0x5a 0xc0 0x5a 0x21 0xe0
    ++ row 0xe8 0x2a 0x32 0xa6 0x47 0x0c 0x09 0x8d 0xd7 0x21 0x01 0x7b
    ++ row 0x7b 0x1b 0xf8 0x39 0x21 0x40 0x21 0xe1 0x67 0x98 0xfb 0x97
    ++ row 0xa7 0xa7 0xa7 0xb7 0x4e 0xaa 0x21 0x81 0x02 0x22 0xba 0x8a
    ++ row 0xbc 0x6b 0xd7 0xae 0x6a 0xcc 0x0c 0xb7 0x23 0xf8 0x9d 0x3d
    ++ row 0x78 0xcd 0x85 0x4b 0x80 0x42 0xc2 0xba 0xac 0xac 0xac 0x9b
    ++ row 0x28 0x05 0x6a 0x85 0xf6 0x10 0x54 0x13 0xec 0xdf 0xbf 0x7f
    ++ row 0x13 0xfa 0xff 0x7d 0x08 0xbe 0xa6 0xb7 0x01 0x7f 0x5f 0x04
    ++ row 0x14 0x62 0x69 0xbc 0x8b 0xd2 0x22 0x17 0x12 0xfa 0x81 0x29
    ++ row 0x63 0xea 0x83 0xea 0xea 0xea 0x59 0x38 0x64 0x0a 0x82 0xf7
    ++ row 0x9f 0xf5 0x8b 0x7a 0x9b 0x80 0x7b 0xd3 0x38 0x43 0x59 0x0d
    ++ row 0xc8 0x27 0x3c 0x32 0xe5 0x7f 0xfa 0x29 0x47 0x9b 0x6d 0xda
    ++ row 0x1c 0x89 0xd3 0x51 0xb0 0x44 0xfe 0x25 0xed 0x13 0xe8 0xdb
    ++ row 0x00 0x6e 0xa0 0x6a 0x31 0xed 0x3d 0x31 0x77 0xee 0x5c 0x2a
    ++ row 0x87 0x83 0x9a 0x23 0x10 0x71 0xee 0xfe 0xaf 0xa7 0xde 0x22
    ++ row 0x20 0xdb 0xce 0xe9 0x2b 0x1b 0x64 0x4e 0x01 0x4f 0x07 0x15
    ++ row 0x19 0xb4 0x1d 0x34 0x66 0x67 0x67 0x67 0x4e 0x99 0x32 0x65
    ++ row 0x11 0x56 0x81 0xe6 0xda 0xda 0xda 0xb9 0xd3 0x5e 0xf8 0x6b
    ++ row 0xf1 0xd1 0xe3 0xd5 0xb4 0xe5 0xf4 0x69 0xc0 0x92 0x15 0x34
    ++ row 0xe1 0xe1 0x55 0xda 0x92 0x72 0x7d 0x71 0x10 0x30 0x22 0x91
    ++ row 0xd3 0x6d 0x3e 0x21 0xab 0xcf 0x91 0x15 0x08 0x9a 0x83 0x08
    ++ row 0x11 0xb2 0x6d 0x60 0xaa 0x6c 0x64 0xab 0x4a 0x80 0xd5 0xc2
    ++ row 0x43 0x52 0xda 0x01 0xe5 0xac 0x5e 0x6b 0x77 0x8b 0x52 0xc4
    ++ row 0xf5 0x79 0x91 0xff 0x03 0x6c 0x01 0x11 0x9b 0x41 0xf2 0xe6
    ++ row 0xb3 0x00 0x00 0x00 0x00 0x49 0x45 0x4e 0x44 0xae 0x42 0x60
    ++ 0x82 ∷ []

-- ===== src/Icons/Squawk32.antt =====
-- `squawk32_png` of src/_icons.h, a line of the array in each line.
use upnp.Prelude.{ℕ, List, [], ◌∷◌, ◌++◌}
use upnp.Icons.Row.{row}

abbrev pub squawk32_png : List ℕ
squawk32_png =
    row 0x89 0x50 0x4e 0x47 0x0d 0x0a 0x1a 0x0a 0x00 0x00 0x00 0x0d
    ++ row 0x49 0x48 0x44 0x52 0x00 0x00 0x00 0x20 0x00 0x00 0x00 0x20
    ++ row 0x08 0x06 0x00 0x00 0x00 0x73 0x7a 0x7a 0xf4 0x00 0x00 0x06
    ++ row 0x02 0x49 0x44 0x41 0x54 0x78 0xda 0xed 0x96 0x6b 0x6c 0x14
    ++ row 0x55 0x14 0x80 0xcf 0x9d 0x99 0x9d 0x7d 0x75 0x67 0xb7 0xf4
    ++ row 0xdd 0xda 0x92 0x56 0x28 0xd5 0x6a 0x91 0x56 0x0c 0x44 0x10
    ++ row 0x84 0xca 0x0f 0x12 0x8c 0x09 0x52 0x25 0x82 0x9a 0x26 0x36
    ++ row 0xf8 0x03 0x1a 0x15 0x34 0xb5 0x89 0xd8 0xa4 0x3f 0x24 0x55
    ++ row 0x14 0x4a 0xc0 0x52 0x1e 0xa9 0x50 0x13 0x49 0xab 0x3f 0x2c
    ++ row 0x6a 0x91 0x57 0x69 0x42 0x6c 0x82 0x56 0xd1 0xf2 0x68 0x30
    ++ row 0x08 0x6d 0x6d 0xb7 0x94 0x6e 0x77 0xba 0xec 0x73 0x1e 0x9e
    ++ row 0x3b 0x74 0x96 0xdd 0xa5 0x6c 0x00 0x05 0xfe 0x78 0x92 0x9b
    ++ row 0x73 0xf7 0xee 0xdc 0x7b 0xbe 0xf3 0xb8 0x0f 0x02 0x0f 0x58
    ++ row 0xc8 0xff 0x00 0xf7 0xdb 0xe0 0xef 0x2f 0x27 0xbe 0xc9 0x10
    ++ row 0xf5 0x63 0x60 0x60 0x5a 0x61 0xf3 0xd8 0xe0 0x7d 0x03 0x68
    ++ row 0x6b 0x6b 0xb3 0x12 0x29 0xd0 0xf1 0xf0 0xcf 0x5b 0x67 0xa9
    ++ row 0x03 0x67 0x2f 0x12 0x50 0x06 0x0b 0xf6 0x8c 0xcc 0xbf 0x2f
    ++ row 0x00 0xed 0xed 0xed 0x29 0xa8 0xbe 0x4f 0x4d 0x4d 0x2d 0xb2
    ++ row 0x3b 0x7f 0x31 0x70 0x27 0x1b 0x83 0xfe 0xab 0x97 0x08 0x61
    ++ row 0x19 0xcb 0x3d 0x05 0x38 0x7e 0xfc 0x38 0x09 0x85 0x42 0xcb
    ++ row 0x15 0x45 0xd9 0x91 0x9d 0x9d 0x9d 0x98 0x9e 0x9e 0xce 0xca
    ++ row 0x01 0x2f 0x84 0x9a 0xcb 0x55 0xdf 0xd0 0x79 0x2f 0x02 0xac
    ++ row 0xbc 0x67 0x00 0x68 0x7c 0xa9 0xaa 0xaa 0x9f 0xf1 0x3c 0x9f
    ++ row 0x36 0x75 0xea 0x54 0xc1 0x62 0xb1 0x68 0xe3 0x38 0x06 0xc1
    ++ row 0xc3 0x1f 0x81 0xbf 0xa7 0xdd 0x0d 0xb2 0xf7 0xcb 0xff 0x14
    ++ row 0xe0 0xc4 0x89 0x13 0x8f 0x10 0x42 0x56 0xa1 0xc7 0xab 0x39
    ++ row 0x8e 0x13 0x32 0x33 0x33 0xed 0x28 0x9a 0x51 0x5d 0x68 0x5f
    ++ row 0xfe 0xf5 0x00 0x04 0x4f 0x35 0x7b 0x25 0xcf 0x70 0xf7 0x5d
    ++ row 0x03 0x74 0x74 0x74 0xb0 0x0c 0xc3 0x4c 0xc7 0x05 0x8b 0x50
    ++ row 0xcf 0x41 0xbd 0x1c 0x8d 0xdb 0xd0 0xa0 0xcd 0xe1 0x70 0x70
    ++ row 0xba 0xc7 0xba 0x51 0x5d 0x64 0x59 0x06 0xf9 0xc2 0x31 0x90
    ++ row 0x3b 0xb7 0x2a 0x21 0xf1 0xca 0xd9 0x30 0xc0 0x91 0x67 0x85
    ++ row 0x42 0xce 0xc0 0xbe 0x62 0x4a 0x4a 0xaa 0x8a 0x67 0x78 0xfc
    ++ row 0xe9 0xd7 0xfa 0xf8 0xa2 0x05 0x2a 0x7a 0x39 0xc5 0x60 0x30
    ++ row 0x04 0x30 0xc4 0x06 0x93 0xc9 0x64 0x43 0x21 0x66 0xb3 0x19
    ++ row 0x10 0xe6 0xa6 0x39 0x3a 0x80 0x24 0x49 0x1a 0x00 0x19 0x3e
    ++ row 0x03 0x6a 0xfb 0x87 0x10 0x70 0x39 0x07 0x08 0x1a 0x2e 0x62
    ++ row 0x58 0xf2 0x09 0x4e 0x9c 0x9b 0x3b 0x73 0x9a 0x59 0x1c 0x19
    ++ row 0xbe 0x69 0x05 0xab 0xdd 0xa4 0x69 0x25 0x24 0x41 0x7f 0xce
    ++ row 0x73 0x90 0xb9 0xb2 0x0a 0x2c 0x9c 0x01 0xd0 0xe3 0xb0 0x41
    ++ row 0x12 0x63 0x4c 0x8d 0x98 0x8f 0xb0 0x9a 0x71 0x2c 0x48 0xed
    ++ row 0x3b 0x4e 0xec 0x07 0xf2 0xed 0xbb 0xe0 0xbb 0x3a 0x34 0x46
    ++ row 0x8e 0x2d 0x16 0x7c 0x36 0xab 0x6a 0x9c 0x92 0x6a 0x0f 0xa6
    ++ row 0xcc 0x79 0xc6 0xa8 0xc8 0x81 0xb8 0xa1 0x3f 0x7f 0xba 0x0f
    ++ row 0xcc 0xeb 0xbe 0x80 0x44 0xc1 0x1e 0x65 0x34 0x16 0x40 0x41
    ++ row 0x4d 0x0d 0x53 0x8f 0xa9 0xa6 0x12 0x0a 0x06 0x81 0x20 0x30
    ++ row 0xef 0xbd 0x02 0x4c 0xcb 0x5a 0xb8 0xe6 0x74 0xfa 0x68 0x04
    ++ row 0xd4 0x69 0xf9 0x0e 0x48 0xce 0xcc 0x50 0xc9 0xac 0x45 0x24
    ++ row 0x34 0xd8 0x1b 0x17 0xe0 0xf2 0xa9 0x3f 0xc0 0xbb 0xa6 0x19
    ++ row 0xd2 0xd2 0xd2 0xa9 0x6b 0x9a 0xa7 0x2a 0x35 0x40 0x8b 0x0b
    ++ row 0x75 0x10 0x8d 0x50 0x4f 0x19 0x96 0x05 0x4c 0x51 0xd4 0x5c
    ++ row 0xbf 0xdf 0x0f 0x2c 0x8e 0x1b 0x03 0x6e 0x30 0x34 0x97 0x83
    ++ row 0x38 0x34 0x2a 0x69 0x00 0x8f 0x97 0x64 0x03 0xe6 0x1f 0x98
    ++ row 0xe4 0x2c 0x08 0x3a 0xfb 0x35 0x4a 0x1a 0x44 0x4d 0x4f 0x78
    ++ row 0x44 0xfb 0x0c 0x86 0xdc 0xd9 0x37 0x0c 0x97 0x5e 0xdc 0x0a
    ++ row 0x59 0x33 0x0a 0x41 0x0a 0x86 0x40 0x41 0x0f 0xa9 0x41 0x29
    ++ row 0x74 0xbd 0xaf 0x0b 0x05 0x30 0x5b 0xad 0x51 0x10 0x3e 0xaf
    ++ row 0x57 0x03 0x30 0x49 0x1e 0x30 0xec 0x5e 0x05 0xa2 0x53 0x0c
    ++ row 0x69 0x00 0xb8 0x2e 0xd8 0x6c 0x26 0x30 0x39 0x2c 0xe0 0x75
    ++ row 0x89 0x13 0x19 0x24 0x51 0x99 0x64 0x08 0x6d 0x2a 0xc5 0x82
    ++ row 0xcb 0x2b 0x3e 0x85 0xc4 0x9c 0x3c 0x90 0x02 0x41 0x34 0xa4
    ++ row 0x97 0x0c 0x89 0x2a 0x40 0xda 0xa7 0x35 0x62 0x15 0x6c 0xe1
    ++ row 0xf1 0x6b 0xe3 0x68 0x98 0x37 0x80 0xc9 0x37 0x0a 0x86 0xc6
    ++ row 0x57 0xc1 0xe3 0xf2 0x5f 0x4f 0xc1 0x8d 0x49 0x78 0x42 0x2b
    ++ row 0x2a 0x4c 0x26 0x14 0x52 0xdf 0x4d 0xee 0xb5 0x7b 0x41 0x48
    ++ row 0x4c 0x8c 0xf2 0xf8 0x3a 0xe4 0x0d 0x00 0x32 0x01 0xc6 0x72
    ++ row 0x1c 0x58 0x6d 0x36 0xad 0xef 0x71 0x8b 0xc0 0x9b 0x8c 0x60
    ++ row 0x16 0x07 0x80 0xdb 0x55 0x01 0xde 0xf1 0x90 0x3b 0x0a 0x20
    ++ row 0xb1 0x72 0x3b 0x24 0x15 0xcf 0xbf 0xc9 0x38 0x3b 0xe6 0x84
    ++ row 0xbf 0x7f 0xeb 0x82 0xf1 0x3d 0xd5 0xda 0xef 0xb1 0x75 0x4d
    ++ row 0x60 0xc5 0xf0 0x6a 0xc5 0xc7 0x90 0xa8 0x5d 0x10 0x06 0x88
    ++ row 0x88 0x86 0x11 0xb7 0x27 0xc7 0xf3 0xe0 0x15 0xc7 0xb5 0xbe
    ++ row 0xf9 0xea 0x05 0xe0 0xf6 0xae 0x05 0xbf 0x57 0x19 0x22 0x47
    ++ row 0x17 0x09 0xdb 0x79 0x9e 0xac 0x0c 0x04 0x54 0x87 0xf7 0xad
    ++ row 0xfd 0x90 0x9d 0x93 0x13 0x2e 0x18 0xbd 0xa2 0x69 0x28 0xcf
    ++ row 0x9d 0x3b 0x07 0xd9 0x4d 0xeb 0xb4 0xdf 0xc1 0xf7 0x5b 0x80
    ++ row 0xc3 0x6d 0x48 0x8b 0x8f 0x56 0xb8 0x1e 0x09 0x1d 0x06 0x62
    ++ row 0x90 0x68 0x64 0x69 0x4d 0xd0 0xef 0x8c 0x78 0x40 0x99 0xff
    ++ row 0xea 0x02 0xf6 0xab 0x1a 0x08 0x06 0xd4 0x3f 0x69 0x04 0x8c
    ++ row 0xf8 0xcd 0x42 0xce 0x9a 0xf0 0xf6 0xc8 0xeb 0x5b 0x4a 0x93
    ++ row 0x53 0x52 0xc3 0xe8 0x1a 0x80 0x2a 0x63 0xae 0x03 0xd0 0x3f
    ++ row 0x34 0xac 0x01 0x5c 0x5a 0x51 0xeb 0x51 0x78 0x8b 0x82 0x1e
    ++ row 0x2a 0x98 0x7f 0xd9 0x68 0x32 0x73 0x66 0x8b 0x45 0xc0 0x03
    ++ row 0x89 0xd0 0x5c 0xab 0xb2 0xa4 0xa5 0x8a 0x4c 0x72 0x20 0x69
    ++ row 0xd1 0x48 0xb0 0x42 0x42 0xf7 0x37 0x40 0x7e 0x68 0x04 0xac
    ++ row 0xe1 0xae 0x30 0xe6 0xc0 0xc0 0x80 0x1d 0x2f 0x10 0x57 0x56
    ++ row 0x56 0x16 0x09 0xef 0x65 0xf4 0xce 0xe5 0x72 0x81 0xc7 0xe3
    ++ row 0x01 0x7a 0xb4 0x96 0x95 0x95 0x85 0xbf 0x6f 0x68 0x68 0x48
    ++ row 0x40 0x95 0x84 0xad 0x10 0x41 0xe6 0x11 0xc2 0x2c 0xc4 0x79
    ++ row 0x85 0x98 0x6f 0xd6 0x82 0xf9 0xc1 0x03 0xf2 0x46 0x64 0x08
    ++ row 0x09 0x47 0x85 0xb7 0x59 0x41 0x38 0xba 0x03 0xe4 0x93 0x07
    ++ row 0x55 0x59 0x56 0xb7 0x87 0x17 0xdc 0xb8 0x71 0x23 0x93 0x9f
    ++ row 0x9f 0x2f 0x65 0x64 0x64 0x68 0x00 0xa2 0x28 0x6a 0xc6 0x69
    ++ row 0xae 0x0b 0x0a 0x0a 0x80 0xfc 0xb8 0x19 0x8a 0xd6 0x37 0xc5
    ++ row 0xbd 0x3b 0x10 0x8a 0x56 0xdb 0x0b 0x2c 0xc7 0xae 0x41 0xa0
    ++ row 0x47 0xed 0x29 0xc9 0x76 0xb3 0xc9 0x44 0x54 0x49 0xd6 0xa2
    ++ row 0xc9 0x70 0xb8 0xd5 0xb1 0x08 0x53 0x5a 0xab 0xc0 0x77 0xf6
    ++ row 0x8c 0x8c 0x63 0x65 0x91 0x00 0x24 0x37 0x37 0x57 0xc1 0x5b
    ++ row 0x8c 0xee 0x6b 0x05 0xcf 0x75 0x26 0x39 0x39 0x59 0x03 0xc0
    ++ row 0xa6 0x8a 0x5b 0xde 0x20 0xf3 0x76 0x77 0xdd 0xf6 0xe5 0x85
    ++ row 0x30 0x8f 0x61 0xde 0x37 0x63 0x5a 0x9e 0x72 0xa4 0xa5 0xda
    ++ row 0x79 0x9a 0x12 0x23 0x0f 0xf8 0x2a 0x82 0xec 0x5d 0xab 0x60
    ++ row 0x6c 0x54 0xa6 0xc7 0xa3 0x79 0xd2 0x05 0xeb 0xeb 0xeb 0xbb
    ++ row 0x8b 0x8b 0x8b 0x67 0xea 0x95 0x84 0x0f 0x09 0xf5 0x7c 0x65
    ++ row 0xe9 0x95 0xa5 0x6d 0x17 0xd3 0x6e 0x17 0x20 0x02 0xe4 0x49
    ++ row 0xac 0x87 0x16 0x8b 0x5d 0x48 0xb5 0xda 0x6d 0x66 0x6b 0x5f
    ++ row 0x37 0x08 0x5f 0x6f 0x02 0x3c 0x42 0x06 0x16 0x1c 0x16 0x1f
    ++ row 0x9a 0x14 0x00 0xa3 0x31 0x13 0xa5 0x03 0x23 0x60 0xa7 0xbf
    ++ row 0xf1 0xa6 0xa3 0x79 0x94 0x07 0x07 0x07 0xc7 0xb1 0x2e 0x1c
    ++ row 0x46 0xa3 0x71 0x6e 0x69 0x69 0xe9 0x4f 0x77 0x00 0x61 0x41
    ++ row 0x88 0x7d 0x69 0xa7 0x0f 0x2e 0xb3 0xf7 0x76 0x1a 0x54 0x7a
    ++ row 0x29 0x11 0x78 0x69 0xe1 0x11 0xf1 0xc0 0x2d 0x43 0x5a 0x57
    ++ row 0x57 0xb7 0x6f 0xf6 0xec 0xd9 0x65 0xd8 0xe5 0x75 0x08 0x2c
    ++ row 0x50 0x15 0x8f 0x56 0xa5 0xb5 0xb5 0xf5 0xbb 0x8a 0x8a 0x8a
    ++ row 0xe7 0xef 0x30 0x12 0x4c 0x82 0xbb 0xaf 0x29 0xfd 0xe4 0xfe
    ++ row 0x15 0x9c 0x67 0xb4 0x01 0xbd 0xaf 0x04 0x88 0xf3 0x2c 0xc7
    ++ row 0x28 0xa4 0xe4 0xe5 0xe5 0xf5 0xe6 0xe4 0xe4 0x38 0xf4 0xdb
    ++ row 0x8c 0x8a 0x20 0x08 0xe0 0x76 0xbb 0x83 0x9d 0x9d 0x9d 0xd6
    ++ row 0x9a 0x9a 0x1a 0xe9 0x4e 0x53 0x12 0x2b 0x71 0x8b 0xaa 0xb6
    ++ row 0xb6 0x76 0x43 0x49 0x49 0xc9 0x07 0xb8 0xc7 0x13 0xb4 0x2a
    ++ row 0xc6 0x42 0xc2 0x08 0xf8 0xf1 0xe9 0xb5 0xba 0xba 0xba 0xba
    ++ row 0xe5 0xdf 0x1a 0x8f 0x07 0xc0 0x62 0x33 0xe0 0xae 0xb0 0xbe
    ++ row 0xb3 0x7e 0x43 0xcf 0x8c 0xfc 0xe9 0x69 0x68 0x38 0x34 0x32
    ++ row 0x32 0xe2 0x69 0x3f 0x74 0xa8 0xaa 0x71 0xe7 0xce 0x76 0xfc
    ++ row 0x5f 0x8a 0x69 0x72 0x84 0x56 0x22 0xda 0x5d 0x01 0xd0 0x27
    ++ row 0x10 0xbd 0x47 0xb9 0xf2 0xf2 0xf2 0x65 0x4b 0x96 0x2c 0xd9
    ++ row 0x85 0x67 0xc2 0xb1 0xfa 0x6d 0xdb 0x3e 0x3f 0xd3 0xd3 0x33
    ++ row 0x8c 0xe3 0xfe 0x89 0xc5 0x7d 0xd8 0x5c 0x11 0xc6 0x95 0x89
    ++ row 0xbe 0xde 0x42 0x93 0x38 0xa6 0x46 0x82 0xc5 0x8b 0x80 0xde
    ++ row 0xb8 0xca 0xf7 0x36 0x3c 0xb1 0x65 0x53 0x5d 0xef 0xc4 0x44
    ++ row 0x7d 0x81 0x5b 0x35 0x35 0x46 0xc7 0x3a 0xac 0xc6 0x0e 0x3c
    ++ row 0x50 0xf9 0x07 0x29 0x52 0xaa 0xa7 0x9a 0x01 0xea 0x15 0x00
    ++ 0x00 ∷ 0x00 ∷ 0x00 ∷ 0x49 ∷ 0x45 ∷ 0x4e ∷ 0x44 ∷ 0xae ∷ 0x42 ∷ 0x60 ∷ 0x82 ∷ []

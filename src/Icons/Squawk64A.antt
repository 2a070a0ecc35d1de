-- ===== src/Icons/Squawk64A.antt =====
-- `squawk64_png` of src/_icons.h, lines 1380 to 1483 of that file.
use upnp.Prelude.{ℕ, List, ◌++◌}
use upnp.Icons.Row.{row}

abbrev pub squawk64_png_a : List ℕ
squawk64_png_a =
    row 0x89 0x50 0x4e 0x47 0x0d 0x0a 0x1a 0x0a 0x00 0x00 0x00 0x0d
    ++ row 0x49 0x48 0x44 0x52 0x00 0x00 0x00 0x40 0x00 0x00 0x00 0x40
    ++ row 0x08 0x06 0x00 0x00 0x00 0xaa 0x69 0x71 0xde 0x00 0x00 0x0e
    ++ row 0x44 0x49 0x44 0x41 0x54 0x78 0xda 0xed 0x59 0x09 0x74 0x15
    ++ row 0xd5 0x19 0xfe 0x67 0xe6 0xcd 0xdb 0xd7 0x84 0x6c 0x08 0xd9
    ++ row 0x13 0x92 0x48 0x20 0xd5 0x82 0x48 0x11 0xdc 0xf0 0xa0 0xd4
    ++ row 0xa5 0x6e 0x3d 0xb4 0x7a 0xe4 0x50 0xa5 0x95 0xe3 0xa9 0x68
    ++ row 0x2b 0xd5 0xd6 0x6a 0xa9 0x45 0x39 0xa7 0x68 0x41 0x50 0x54
    ++ row 0xb0 0xa2 0x28 0x08 0x52 0xa0 0x42 0xc3 0x11 0x21 0x81 0x80
    ++ row 0x2c 0x45 0x64 0x53 0x42 0x68 0xe2 0xc2 0x9a 0x90 0x40 0x20
    ++ row 0xdb 0xdb 0x67 0xfa 0xff 0xf7 0xcd 0xbc 0x4c 0x5e 0xde 0xcb
    ++ row 0x06 0x12 0x40 0xfe 0x73 0xe6 0xcc 0x9d 0x3b 0x77 0xee 0xfc
    ++ row 0xdf 0x77 0xff 0xed 0xce 0x70 0xf0 0x03 0x17 0xae 0xb7 0x15
    ++ row 0xe8 0x6d 0xb9 0x4c 0x40 0x6f 0x2b 0xd0 0xdb 0x72 0x99 0x80
    ++ row 0xde 0x56 0xa0 0xb7 0xe5 0x32 0x01 0xbd 0xad 0x40 0x6f 0xcb
    ++ row 0x65 0x02 0x7a 0x5b 0x81 0xde 0x96 0xcb 0x04 0xf4 0xb6 0x02
    ++ row 0xbd 0x2d 0x97 0x3c 0x01 0xdf 0x4c 0x1e 0x90 0x40 0x38 0x33
    ++ row 0x66 0x56 0x9c 0xf8 0x41 0x11 0xb0 0x7e 0xfd 0xfa 0x74 0x73
    ++ row 0xcd 0x97 0x6f 0x24 0xed 0x78 0xe3 0x16 0xe0 0x38 0x0f 0x27
    ++ row 0x05 0x7f 0x8e 0x24 0xac 0xfa 0x41 0x10 0x80 0xe0 0xe3 0x74
    ++ row 0x3a 0xdd 0xbe 0xc4 0xc4 0xc4 0x14 0xd3 0xde 0xe5 0x9c 0xbc
    ++ row 0xf5 0x3d 0x90 0x79 0xc1 0x8b 0x24 0xe4 0x20 0x09 0x87 0x2f
    ++ row 0x69 0x02 0x4a 0x4a 0x4a 0x6c 0x82 0x20 0x6c 0x49 0x4e 0x4e
    ++ row 0x2e 0x88 0x8b 0x8b 0xe3 0x7d 0xcd 0x0d 0xe0 0x9b 0xf7 0x00
    ++ row 0x40 0xf3 0x29 0x08 0xe8 0x4c 0x2b 0x72 0x66 0xec 0xbe 0xfb
    ++ row 0x92 0x25 0x00 0xc1 0x0f 0xe5 0x38 0x6e 0x45 0x52 0x52 0x52
    ++ row 0x42 0x4a 0x4a 0x8a 0x48 0x7d 0x81 0x40 0x00 0xdc 0x6b 0x5e
    ++ row 0x86 0xe0 0x17 0x2b 0x40 0xe6 0xf8 0x20 0x27 0x4b 0x09 0x68
    ++ row 0x05 0xf5 0x97 0x14 0x01 0x1b 0x36 0x6c 0xe0 0x11 0xf8 0x73
    ++ row 0xd8 0x9c 0x9c 0x91 0x91 0xe1 0xb0 0xd9 0x6c 0x20 0xcb 0x72
    ++ row 0xf8 0xbe 0xbb 0xbc 0x0c 0x7c 0x1f 0xfd 0x81 0xb5 0x65 0xe0
    ++ row 0x26 0x65 0xce 0x3c 0x30 0xf7 0x92 0x21 0xa0 0xb4 0xb4 0x74
    ++ row 0x2c 0xcf 0xf3 0xb3 0x4c 0x26 0x53 0x52 0x5a 0x5a 0x9a 0x55
    ++ row 0x14 0xc5 0x76 0x63 0x82 0xde 0x16 0x68 0x9a 0x71 0x2b 0x9a
    ++ row 0x83 0x17 0x3c 0xa2 0x6d 0x53 0xfe 0x8c 0x9d 0x23 0x2f 0x7a
    ++ row 0x02 0xca 0xca 0xca 0x6e 0xc1 0x55 0x9f 0x85 0xc1 0x2e 0x05
    ++ row 0x4d 0xde 0xe1 0x74 0x3a 0x63 0x8e 0x25 0x6b 0x68 0x5c 0xf8
    ++ row 0x38 0x48 0x5f 0x6f 0x87 0x20 0x2f 0x7a 0x05 0xc9 0x6f 0xce
    ++ row 0x7c 0xf5 0x7f 0xd2 0x45 0x49 0xc0 0xc6 0x8d 0x1b 0x47 0xe2
    ++ row 0x8a 0xcf 0x46 0xe0 0x69 0x09 0x09 0x09 0x0e 0xbb 0xdd 0x0e
    ++ row 0xd8 0x8e 0x0a 0x5a 0x2b 0xee 0xb2 0x05 0xe0 0x2b 0x09 0x5b
    ++ row 0x7e 0x5e 0xe6 0xec 0xca 0x8a 0x8b 0x86 0x00 0x4c 0x6b 0x4e
    ++ row 0x04 0xfd 0x20 0x36 0x1f 0x47 0xb0 0xf1 0xb8 0xe2 0x4e 0x87
    ++ row 0xc3 0xc1 0x80 0xa3 0x15 0xc4 0x04 0xad 0x15 0xef 0x57 0xeb
    ++ row 0xc1 0xbd 0xf4 0x99 0xd0 0x38 0x8e 0xbb 0x23 0x7b 0x76 0xe5
    ++ row 0xaa 0x0b 0x9a 0x80 0xe2 0xe2 0x62 0x3b 0x82 0xbe 0x19 0x7d
    ++ row 0xfa 0x57 0x78 0x39 0x02 0x01 0xeb 0x30 0xad 0x99 0x51 0x80
    ++ row 0xfc 0xbc 0xab 0xc0 0x49 0x82 0xc1 0x20 0xf8 0x8e 0xec 0x07
    ++ row 0xef 0xdb 0x13 0xd8 0x75 0x8b 0x21 0x6e 0x5a 0xe1 0x2b 0x9f
    ++ row 0x3f 0x7b 0x41 0x11 0xb0 0x72 0xe5 0x4a 0x3b 0x82 0x1a 0x84
    ++ row 0xc7 0xf5 0x08 0xfc 0x3e 0x3c 0xa7 0xd3 0x2a 0xbb 0x5c 0x2e
    ++ row 0xbb 0x6a 0xe6 0x74 0xe0 0xbd 0x76 0xcf 0x76 0x44 0x00 0x81
    ++ row 0xf7 0xfb 0xfd 0x20 0x7b 0x9a 0xc0 0xfb 0xf2 0xad 0xac 0xaf
    ++ row 0xc9 0x94 0x58 0x5c 0xf4 0xca 0xf6 0xb1 0xe7 0x94 0x80 0xaa
    ++ row 0xc7 0xb2 0xcc 0x78 0xb2 0xe2 0xe1 0x23 0x92 0xb3 0xe6 0x54
    ++ row 0xf9 0xa2 0x8d 0x5b 0xbd 0x7a 0x35 0x87 0x4a 0xa5 0x21 0xc0
    ++ row 0x22 0x54 0x7c 0x08 0x02 0x1a 0x8e 0xd7 0x05 0x78 0xcb 0x88
    ++ row 0x91 0x3c 0x80 0x60 0x6d 0x08 0x5a 0xb4 0x58 0x2c 0x6c 0x95
    ++ row 0x09 0x34 0x16 0x36 0x6d 0x56 0xbc 0x2b 0x04 0x50 0x9f 0x24
    ++ row 0x49 0x0c 0xbc 0x2a 0xbe 0x97 0x6f 0x43 0x22 0x1a 0xc1 0x6d
    ++ row 0x70 0x95 0x17 0xce 0xda 0x55 0xd0 0x29 0x01 0xdb 0xc7 0x65
    ++ row 0xbb 0x38 0x9d 0xee 0x39 0x5e 0x34 0x4c 0x3e 0x1b 0x72 0xea
    ++ row 0x46 0x4c 0xd8 0x2e 0x66 0x0e 0xb6 0xf9 0x3c 0x1e 0xa7 0xcf
    ++ row 0xeb 0xb5 0x21 0x28 0x3f 0x82 0x15 0x2c 0x56 0xab 0x1d 0x4d
    ++ row 0x9a 0x23 0xb3 0x26 0x90 0x24 0xb4 0xc2 0x3a 0x6c 0xd3 0x59
    ++ row 0xed 0xeb 0x08 0x68 0xac 0x7e 0x66 0xf6 0xbe 0xd0 0x1a 0xa8
    ++ row 0xe4 0xf9 0xdf 0x79 0x04 0xe4 0xe3 0x15 0xe0 0xd7 0x99 0x4f
    ++ row 0x17 0xbc 0x56 0xee 0x8a 0x49 0x00 0x02 0x8f 0x13 0x74 0xfc
    ++ row 0x54 0x29 0x10 0x7c 0xc8 0x61 0xd7 0x1b 0x81 0x97 0xc5 0x40
    ++ row 0x50 0xea 0x3e 0x72 0x52 0xac 0xa5 0x01 0x6a 0xf2 0xc6 0x02
    ++ row 0x3f 0x6a 0x3c 0x5c 0x91 0x9d 0x05 0x82 0xcf 0x1f 0xea 0x57
    ++ row 0xc0 0x92 0x72 0x2a 0x58 0xf5 0x9a 0x94 0x92 0xb5 0x73 0xa8
    ++ row 0xcd 0x98 0xaf 0x91 0xdb 0xbc 0xd3 0x8f 0xd5 0x1f 0x11 0x40
    ++ row 0x07 0x89 0x4a 0x64 0x70 0xc9 0x53 0x20 0x57 0x6d 0xa7 0x8a
    ++ row 0x50 0xc6 0x8a 0x50 0xcc 0x79 0xeb 0x50 0xb0 0x0d 0x01 0x04
    ++ row 0x9c 0x03 0xf9 0x19 0xe0 0xf8 0x89 0x3a 0xd9 0x6d 0x72 0xda
    ++ row 0x44 0x29 0x29 0x2d 0xc5 0x70 0xa2 0xf6 0x64 0x8f 0x57 0x3f
    ++ row 0xe8 0x0b 0xc0 0x99 0xda 0x46 0x38 0x76 0xcf 0x0c 0x18 0x30
    ++ row 0x7c 0x14 0x18 0x0d 0x46 0xd0 0xa1 0x69 0x32 0x5f 0xa6 0x95
    ++ row 0x89 0x02 0x90 0x83 0xd8 0x66 0xdd 0x11 0x01 0x04 0x98 0x4a
    ++ row 0x5f 0xf5 0x9a 0xcc 0x5f 0x75 0x23 0x12 0x69 0xf9 0x9f 0x41
    ++ row 0xae 0x28 0x53 0x1f 0x73 0xe4 0xce 0x3b 0xdc 0xc0 0x29 0xc0
    ++ row 0xad 0x9c 0x1c 0xbc 0x1b 0x47 0xbf 0xaa 0x93 0xdc 0x46 0x5d
    ++ row 0xb0 0xd9 0x80 0x44 0x40 0xca 0x80 0x9c 0x00 0x87 0x16 0xd9
    ++ row 0xd0 0xd8 0xdc 0x63 0x02 0x48 0x9a 0xaa 0x4f 0x41 0xcd 0xd5
    ++ row 0xe3 0xc0 0x7e 0xe3 0x43 0x90 0x94 0xda 0x1f 0x44 0xad 0x35
    ++ row 0xc5 0x22 0xa0 0x83 0xfb 0x91 0xfd 0x81 0x08 0xe0 0x2a 0x29
    ++ row 0x7e 0x74 0x01 0x22 0x40 0xd4 0xeb 0x43 0x9d 0xab 0xa6 0x81
    ++ row 0xfc 0xe5 0x5a 0x75 0x48 0xdf 0xdc 0xf9 0x47 0x8e 0x33 0x02
    ++ row 0xfe 0x7b 0x6f 0xdf 0x17 0x74 0xbc 0xf4 0x94 0x28 0xb5 0x18
    ++ row 0xd4 0xd7 0xd0 0xe2 0xa4 0x17 0x16 0x80 0x4f 0x31 0x27 0x08
    ++ row 0x2b 0xc7 0xb5 0x6a 0xd9 0xa6 0xdd 0x5e 0x24 0x04 0xea 0xf1
    ++ row 0x78 0xa1 0xe9 0x54 0x03 0xd4 0x25 0x16 0x81 0x7b 0xf4 0xe3
    ++ row 0x30 0x60 0xf0 0x60 0x66 0x01 0x9c 0xa2 0x6c 0x5b 0xa5 0xdb
    ++ row 0x4f 0x27 0x47 0x21 0x80 0xfa 0x48 0x27 0x0a 0x72 0x5a 0xdd
    ++ row 0xda 0xbc 0x1b 0xef 0x11 0x29 0x34 0x57 0x98 0x80 0x35 0x33
    ++ row 0x00 0x76 0x87 0x3f 0x09 0xe4 0x0c 0xf8 0xe7 0xb1 0x4a 0xf6
    ++ row 0xae 0x6d 0xf7 0xa5 0x1e 0xb1 0xc8 0xf5 0x57 0xa8 0x77 0x2c
    ++ row 0x76 0x1b 0x38 0x12 0xfb 0x80 0xc5 0x69 0xc7 0x17 0x48 0x6d
    ++ row 0x22 0xb0 0xda 0x8e 0xd6 0x17 0x55 0x50 0xd9 0xea 0x23 0xd5
    ++ row 0x70 0xd4 0x63 0x82 0x9a 0xb1 0x53 0xa1 0x68 0xd8 0x30 0x10
    ++ row 0xb0 0x2f 0x2a 0x01 0x1a 0x0b 0x50 0xaf 0x08 0x88 0x84 0x63
    ++ row 0x64 0x02 0x8b 0x87 0x1a 0xdd 0x3b 0x13 0xe6 0x0e 0xfe 0x00
    ++ row 0x5b 0x48 0xbd 0xc1 0xc0 0xfa 0xf8 0x75 0x73 0x00 0x76 0x2c

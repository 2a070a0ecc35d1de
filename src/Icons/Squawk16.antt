-- ===== src/Icons/Squawk16.antt =====
-- `squawk16_png` of src/_icons.h, a line of the array in each line.
use upnp.Prelude.{ℕ, List, [], ◌∷◌, ◌++◌}
use upnp.Icons.Row.{row}

abbrev pub squawk16_png : List ℕ
squawk16_png =
    row 0x89 0x50 0x4e 0x47 0x0d 0x0a 0x1a 0x0a 0x00 0x00 0x00 0x0d
    ++ row 0x49 0x48 0x44 0x52 0x00 0x00 0x00 0x10 0x00 0x00 0x00 0x10
    ++ row 0x08 0x06 0x00 0x00 0x00 0x1f 0xf3 0xff 0x61 0x00 0x00 0x02
    ++ row 0x3a 0x49 0x44 0x41 0x54 0x78 0xda 0x63 0x64 0xa0 0x10 0x30
    ++ row 0x92 0xa3 0x69 0xc3 0x86 0x0d 0x8c 0x01 0x01 0x01 0xff 0xc9
    ++ row 0x32 0x60 0xe3 0xc6 0x8d 0x8c 0x4c 0x8c 0x0c 0x93 0x74 0xcf
    ++ row 0xf5 0x67 0x33 0x39 0xe5 0x09 0x90 0x64 0x00 0x50 0xb3 0x31
    ++ row 0x0b 0x0b 0xcb 0x42 0x1e 0x1e 0x1e 0x65 0xfd 0x13 0x2d 0x1c
    ++ row 0xbf 0xb9 0x84 0x0f 0x10 0x34 0x60 0xf5 0xea 0xd5 0x4e 0xec
    ++ row 0xec 0xec 0x81 0x40 0x66 0x20 0x2b 0x2b 0x2b 0xb7 0xac 0xac
    ++ row 0xac 0x00 0x10 0x30 0x70 0xee 0x6c 0x61 0x60 0x7a 0x73 0xf7
    ++ row 0x3b 0xe3 0xc1 0x00 0x25 0x4b 0xa0 0xe4 0x64 0x96 0x9f 0x6f
    ++ row 0xd5 0x99 0x59 0x98 0x7e 0x33 0x31 0x31 0x32 0x31 0xb3 0x73
    ++ row 0x70 0x32 0x31 0x31 0x30 0x30 0x31 0xfe 0x63 0x7c 0x9d 0xbc
    ++ row 0xe4 0x8b 0x90 0x90 0x90 0x80 0xa0 0xa0 0x20 0x23 0xd0 0x00
    ++ row 0x84 0xc9 0xd7 0x76 0x31 0x30 0x9e 0x58 0xf4 0x1e 0x64 0xc0
    ++ row 0x7f 0x3e 0xa6 0x8f 0xff 0x14 0x1d 0x2c 0x98 0xd8 0x14 0xf4
    ++ row 0x18 0x7e 0x3f 0xbf 0x05 0x57 0xf3 0xf4 0xc8 0x09 0x06 0xce
    ++ row 0xa6 0x23 0x0c 0xcc 0xcc 0xcc 0x90 0x10 0x67 0x64 0x64 0xf8
    ++ row 0xff 0x1f 0x1c 0x76 0x0c 0xff 0x5e 0x3f 0x60 0xf8 0xb3 0xaa
    ++ row 0xfc 0x0b 0xd8 0x00 0x25 0x15 0x2e 0x06 0xe6 0xdf 0xbf 0x18
    ++ row 0x98 0x38 0x39 0xe0 0x9a 0xd9 0x44 0xc4 0x19 0x9e 0x5d 0xbc
    ++ row 0xce 0xf0 0x25 0x7b 0x0d 0x58 0x23 0x13 0xd0 0x49 0x30 0x0c
    ++ row 0x0c 0x07 0x06 0xa6 0x1f 0x1f 0x19 0x58 0x16 0x65 0xfc 0x02
    ++ row 0x1b 0xc0 0xf8 0xf5 0x35 0x03 0x07 0x17 0xdb 0x3f 0x66 0x36
    ++ row 0x66 0x26 0x90 0x66 0x26 0x06 0x88 0x2d 0x3f 0x7e 0xfc 0x63
    ++ row 0x78 0x91 0x34 0x07 0xec 0x02 0x10 0x06 0x69 0x84 0xd1 0xec
    ++ row 0x6f 0xee 0x30 0xf0 0xef 0x9f 0xf0 0x9d 0x71 0xaf 0x23 0x9f
    ++ row 0x35 0xd0 0xd0 0xdd 0xaf 0xd2 0x66 0x73 0x1a 0x18 0x18 0xc0
    ++ row 0x5d 0x70 0xe1 0xc2 0x05 0x06 0xd1 0x79 0x39 0x0c 0x8f 0x22
    ++ row 0xbb 0xc1 0x9a 0x60 0xb6 0xc3 0xd8 0x82 0x4f 0x4f 0x33 0x88
    ++ row 0xdc 0xd8 0xfe 0x01 0x64 0x00 0x28 0x26 0x34 0xdf 0x64 0xcc
    ++ row 0xbe 0xaa 0xaa 0xaa 0x0a 0xf6 0xe3 0xf7 0xef 0xdf 0x19 0x9e
    ++ row 0x3e 0x7d 0xca 0x20 0xb0 0x63 0x72 0xd7 0x13 0x9b 0x44 0xf7
    ++ row 0x1f 0x3f 0x7e 0x68 0x01 0xc5 0x99 0x81 0x36 0x33 0x71 0x70
    ++ row 0x70 0x80 0xbd 0x24 0x79 0x67 0x17 0x83 0xf0 0xbb 0x9b 0x2f
    ++ row 0xe0 0xd1 0xb8 0x72 0xe5 0x4a 0x90 0xbb 0xff 0x23 0x27 0xae
    ++ row 0xb7 0x3f 0xbe 0xb9 0x65 0xc5 0x27 0xee 0x9e 0x34 0x69 0x12
    ++ row 0xf3 0xcf 0x9f 0x3f 0xcd 0x81 0x06 0xd4 0xfe 0xfd 0xfb 0xd7
    ++ row 0x1d 0x98 0x0e 0x18 0x75 0x2e 0xcc 0x63 0xe0 0xe0 0x17 0x3a
    ++ row 0x8a 0x91 0x0e 0x80 0x89 0xe5 0x8f 0xa8 0xa8 0x28 0xf3 0xe3
    ++ row 0xc7 0x8f 0x7f 0x03 0x0d 0x10 0x02 0x1a 0xf0 0x05 0x59 0xbe
    ++ row 0xad 0xad 0x4d 0x9b 0x8d 0x85 0xe9 0xb4 0xd3 0x85 0x09 0x9c
    ++ row 0xbf 0x6c 0x92 0x2c 0x30 0x0c 0x58 0xbf 0x7e 0xfd 0x71 0x2e
    ++ row 0x2e 0x2e 0x0b 0xa0 0xb3 0xff 0xff 0xfa 0xf5 0x8b 0x31 0x34
    ++ row 0x34 0x14 0x43 0xcd 0x01 0x67 0x3e 0x01 0x0e 0xff 0x54 0x1e
    ++ row 0x8b 0xbc 0xde 0x27 0x18 0x92 0xcb 0x97 0x2f 0xe7 0x04 0xfa
    ++ row 0xf3 0x23 0x27 0x27 0x27 0xeb 0xa7 0x4f 0x9f 0xfe 0x86 0x85
    ++ row 0x85 0xb1 0xe0 0x4b 0xa9 0xd8 0x92 0xb2 0x12 0x30 0xf9 0xde
    ++ row 0x05 0x06 0xda 0x5f 0x50 0xc0 0x85 0x87 0x87 0xeb 0x02 0xc5
    ++ row 0x40 0xde 0x78 0x80 0xcd 0x00 0x00 0x9d 0x5c 0xca 0xa3 0x16
    ++ row 0xa1 0xc4 0xea 0x00 0x00 0x00 0x00 0x49 0x45 0x4e 0x44 0xae
    ++ 0x42 ∷ 0x60 ∷ 0x82 ∷ []

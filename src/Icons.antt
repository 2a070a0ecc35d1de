-- ===== src/Icons.antt =====
-- The images of src/_icons.h: the array of each, and the length that is written beside it.
pub mod Row
pub mod Png
mod Squawk16
mod Squawk32
mod Squawk48A
mod Squawk48B
mod Squawk64A
mod Squawk64B
mod Squawk64C
mod Squawk120A
mod Squawk120B
mod Squawk120C
mod Squawk120D
mod Squawk120E
mod Squawk120F
mod Squawk120G
use upnp.Prelude.{ℕ, List, ◌++◌}
pub use Squawk16.{squawk16_png}
pub use Squawk32.{squawk32_png}
use Squawk48A.{squawk48_png_a}
use Squawk48B.{squawk48_png_b}
use Squawk64A.{squawk64_png_a}
use Squawk64B.{squawk64_png_b}
use Squawk64C.{squawk64_png_c}
use Squawk120A.{squawk120_png_a}
use Squawk120B.{squawk120_png_b}
use Squawk120C.{squawk120_png_c}
use Squawk120D.{squawk120_png_d}
use Squawk120E.{squawk120_png_e}
use Squawk120F.{squawk120_png_f}
use Squawk120G.{squawk120_png_g}

abbrev pub squawk16_png_len : ℕ
squawk16_png_len = 627

abbrev pub squawk32_png_len : ℕ
squawk32_png_len = 1595

abbrev pub squawk48_png : List ℕ
squawk48_png = squawk48_png_a ++ squawk48_png_b

abbrev pub squawk48_png_len : ℕ
squawk48_png_len = 2552

abbrev pub squawk64_png : List ℕ
squawk64_png = squawk64_png_a ++ squawk64_png_b ++ squawk64_png_c

abbrev pub squawk64_png_len : ℕ
squawk64_png_len = 3709

abbrev pub squawk120_png : List ℕ
squawk120_png =
    squawk120_png_a ++ squawk120_png_b ++ squawk120_png_c ++ squawk120_png_d ++ squawk120_png_e
    ++ squawk120_png_f ++ squawk120_png_g

abbrev pub squawk120_png_len : ℕ
squawk120_png_len = 11564

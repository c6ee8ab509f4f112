-- ===== src/Screen.antt =====
-- src/platform/m65_screen.c: the screen codes of ASCII; what puts them on the screen is not here.
use mega_irc.Common.{ℕ, ◌-◌, ◌&&◌, leb, ◌==◌, if◌then◌else◌}

unfoldable pub m65_ascii_to_screencode : ℕ → ℕ
m65_ascii_to_screencode u =
    if leb 0x41 u && leb u 0x5a
    then u
    else if leb 0x61 u && leb u 0x7a
    then u - 96
    else if leb 0x20 u && leb u 0x3f
    then u
    else if u == 0x40
    then 0x00
    else if u == 0x5b
    then 0x1b
    else if u == 0x5d
    then 0x1d
    else if u == 0x5f
    then 0x64
    else if u == 0x5e
    then 0x5e
    else if u == 0x7c
    then 0x5d
    else if u == 0x5c
    then 0x5c
    else if u == 0x60
    then 0x60
    else if u == 0x7b
    then 0x68
    else if u == 0x7d
    then 0x69
    else if u == 0x7e
    then 0x6f
    else 0x2e

-- ===== src/Marks/Tests.antt =====
-- src/m65/marks.c at concrete bookmarks.
use mega_irc.Common.{true, some, [], ◌∷◌, ◌≡◌, inl, refl, arith, codes}
use mega_irc.Marks.{Mark, Marks, Disk, write_file, marks_add, marks_get}
use mega_irc.Marks.Entries.{IsEntry, write_marks}
use mega_irc.Marks.Add.{marks_add-marks_get}

abbrev libera : Mark
libera = record {
  host = codes "irc.libera.chat";
  port = codes "6697";
  tls = codes "y";
  nick = codes "mega";
  chans = codes "#mega65,#c64";
}

abbrev local : Mark
local = record { host = codes "10.0.0.2"; port = []; tls = codes "n"; nick = codes "m"; chans = [] }

abbrev blank : Mark
blank = record { host = []; port = []; tls = []; nick = []; chans = [] }

libera-IsEntry : IsEntry libera
libera-IsEntry = record {
  host_line = ground arith;
  host_fits = omega arith;
  port_line = ground arith;
  port_fits = omega arith;
  tls_line = ground arith;
  tls_fits = omega arith;
  nick_line = ground arith;
  nick_fits = omega arith;
  chans_line = ground arith;
  chans_fits = omega arith;
}

local-IsEntry : IsEntry local
local-IsEntry = record {
  host_line = ground arith;
  host_fits = omega arith;
  port_line = tt;
  port_fits = omega arith;
  tls_line = ground arith;
  tls_fits = omega arith;
  nick_line = ground arith;
  nick_fits = omega arith;
  chans_line = tt;
  chans_fits = omega arith;
}

abbrev good_disk : Disk
good_disk = record { creates = true; takes = λ i. true; closes = true }

abbrev one_mark : Marks
one_mark = record { text = write_marks (libera ∷ []); marks_count = 1 }

second_written : write_file good_disk (write_marks (libera ∷ local ∷ [])) ≡ true
unfolding write_file
second_written = refl

marks_add-marks_get_example :
    (t : Marks) × (marks_add good_disk one_mark local ≡ some (true, t))
    × (t.text ≡ write_marks (libera ∷ local ∷ []))
    × (t.marks_count ≡ 2)
    × (marks_get t 1 blank ≡ (true, local))
marks_add-marks_get_example =
    marks_add-marks_get good_disk one_mark (libera ∷ []) local blank (inl refl) refl (omega arith)
      (libera-IsEntry, tt) local-IsEntry (omega arith) second_written

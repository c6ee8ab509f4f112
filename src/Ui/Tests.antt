-- ===== src/Ui/Tests.antt =====
-- src/ui.c at concrete texts.
use mega_irc.Common.{some, [], ◌≡◌, refl, codes}
use mega_irc.Ui.{Writer, ui_cat, ui_cat_num, ui_put_ulong}

abbrev full_soon : Writer
full_soon = record { text = codes "ab"; room = 5 }

cat_cut : ui_cat full_soon (some (codes "cdefg")) ≡ record { text = codes "abcde"; room = 5 }
unfolding ui_cat
cat_cut = refl

number_text : ui_put_ulong 4294967295 ≡ codes "4294967295"
unfolding ui_put_ulong
number_text = refl

number_inner_zeros : (ui_cat_num (record { text = []; room = 9 }) 100200).text ≡ codes "100200"
unfolding ui_cat_num
number_inner_zeros = refl

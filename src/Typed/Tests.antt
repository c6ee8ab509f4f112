-- ===== src/Typed/Tests.antt =====
-- src/ircc.c and src/m65/cmd.c: typed words and channel lists.
use mega_irc.Common.{◌≡◌, refl, codes}
use mega_irc.Client.{is_channel}
use mega_irc.Irc.{take_until, drop_until, step_over, skip_spaces}
use mega_irc.Typed.{first_word, one_channel, hashed}

word_and_rest : first_word (codes "me  waves at all") ≡ (codes "me", codes "waves at all")
unfolding first_word take_until drop_until step_over skip_spaces
word_and_rest = refl

first_of_list : one_channel 0 (codes "#a b,#c") ≡ (codes "#ab", codes ",#c")
unfolding one_channel
first_of_list = refl

hash_put_on : hashed 32 (codes "c64") ≡ codes "#c64"
unfolding hashed is_channel
hash_put_on = refl

hash_there : hashed 32 (codes "&local") ≡ codes "&local"
unfolding hashed is_channel
hash_there = refl

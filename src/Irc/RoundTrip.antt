-- ===== src/Irc/RoundTrip.antt =====
-- src/irc.c: a line written in the protocol's grammar is read back field by field.
use mega_irc.Common.{
  ℕ, true, Option, none, some, List, [], ◌∷◌, ◌++◌, ◌≡◌, ◌≢◌, ◌∙◌, refl, ap, arith, Str, All,
  All-append, take,
}
use mega_irc.Irc.{
  Msg, blank_msg, irc_params_max, numeric_of, go_on, after_tags, host_of, read_tags, read_prefix,
  read_cmd, with_params, next_stage, irc_parse, take_until, drop_until, step_over,
}
use mega_irc.Irc.Words.{
  IsWord, Avoids, AtBreak, NotAt, take_until-append, drop_until-append, skip_spaces_none,
}
use mega_irc.Irc.Sound.{IsParam, with_params-go_on}
use mega_irc.Irc.Written.{
  Line, write_params, write_tags, write_host, write_prefix, write_line, AvoidsOpt, HostNeedsNick,
  IsWritable, msg_of, write_params-AtBreak, keep_all-fill, read_word, params_loop-write,
}

-- The stages before the loop.
read_tags-write :
    (t : Option Str) (rest : Str)
    → AvoidsOpt b' ' t
    → NotAt b' ' rest
    → NotAt b'@' rest
    → read_tags blank_msg (write_tags t rest) ≡ go_on (record blank_msg { tags = t }) rest
unfolding read_tags after_tags
read_tags-write none [] a h k = refl
read_tags-write none (c ∷ p) a h k = ground arith
read_tags-write (some t) rest a h k = ground (
  arith,
  take_until-append b' ' t (b' ' ∷ rest) a refl,
  drop_until-append b' ' t (b' ' ∷ rest) a refl,
  skip_spaces_none rest h,
)

write_host-Avoids : (h : Option Str) → AvoidsOpt b' ' h → Avoids b' ' (write_host h)
write_host-Avoids none a = tt
write_host-Avoids (some h) a = ((λ q. omega arith), a)

-- The prefix is cut where the nick ends.
cut_host :
    (n : Str) (h : Option Str)
    → Avoids b'!' n
    → (take_until b'!' (n ++ write_host h) ≡ n)
      × (host_of (drop_until b'!' (n ++ write_host h)) ≡ h)
unfolding host_of
cut_host n none a = (take_until-append b'!' n [] a tt, rw (drop_until-append b'!' n [] a tt) refl)
cut_host n (some h) a = (
  take_until-append b'!' n (b'!' ∷ h) a refl,
  rw (drop_until-append b'!' n (b'!' ∷ h) a refl) refl,
)

read_prefix-write :
    (t n h : Option Str) (rest : Str)
    → AvoidsOpt b' ' n
    → AvoidsOpt b'!' n
    → AvoidsOpt b' ' h
    → HostNeedsNick n h
    → NotAt b' ' rest
    → NotAt b':' rest
    → read_prefix (record blank_msg { tags = t }) (write_prefix n h rest)
      ≡ go_on (record blank_msg { tags = t; prefix = n; host = h }) rest
unfolding read_prefix step_over
read_prefix-write t none h [] a b c d e f = ground arith
read_prefix-write t none h (x ∷ p) a b c d e f = ground arith
read_prefix-write t (some n) h rest a b c d e f =
    let word = n ++ write_host h in
    let w = All-append (λ x. x ≢ b' ') n (write_host h) a (write_host-Avoids h c) in
    let cut = cut_host n h b in
    ground (
      arith,
      cut.0,
      cut.1,
      take_until-append b' ' word (b' ' ∷ rest) w refl,
      drop_until-append b' ' word (b' ' ∷ rest) w refl,
      skip_spaces_none rest e,
    )

read_cmd-write :
    (m : Msg) (w p : Str)
    → IsParam w
    → AtBreak b' ' p
    → read_cmd m (w ++ p) ≡ go_on (record m { cmd = some w; numeric = numeric_of w }) (step_over p)
unfolding read_cmd
read_cmd-write m [] p h b = absurd (h.0.0 refl)
read_cmd-write m (c ∷ w) p h b = let (t, d) = read_word c w p h.0.1 b in rw (t, d) refl

NotAt-append : (stop : ℕ) (w p : Str) → w ≢ [] → NotAt stop w → NotAt stop (w ++ p)
NotAt-append stop [] p n h = absurd (n refl)
NotAt-append stop (c ∷ w) p n h = h

word-NotAt : (w : Str) → IsWord w → NotAt b' ' w
word-NotAt [] h = tt
word-NotAt (c ∷ w) h = h.1.0

NotAt-write_prefix :
    (stop : ℕ) (n h : Option Str) (rest : Str)
    → b':' ≢ stop
    → NotAt stop rest
    → NotAt stop (write_prefix n h rest)
NotAt-write_prefix stop none h rest c r = r
NotAt-write_prefix stop (some n) h rest c r = c

write_params_read :
    (m : Msg) (ws : List Str) (t : Option Str)
    → All IsParam ws
    → m.params ≡ []
    → m.trailing ≡ none
    → with_params (go_on m (step_over (write_params ws t)))
      ≡ some (true, record m { params = take irc_params_max ws; trailing = t })
write_params_read m ws t a p e =
    with_params-go_on m _ _ (params_loop-write ws t _ m a e (omega arith))
    ∙ ap (λ k. some (true, record m { params = k; trailing = t }))
        (rw p (keep_all-fill ws [] (omega arith)))

-- A written line is accepted, and every field of the message is the part that was written: tags,
-- nick, host, command, its number, the first eight parameters, and the trailing also where there
-- are more parameters than that.
pub irc_parse-write_line :
    (l : Line) → IsWritable l → irc_parse (some (write_line l)) ≡ some (true, msg_of l)
unfolding irc_parse next_stage
irc_parse-write_line l v =
    let tail = write_params l.middle l.trailing in
    let body = l.command ++ tail in
    let at_word =
      NotAt-append b' ' l.command tail v.command_word.0.0 (word-NotAt l.command v.command_word.0) in
    let at_colon = NotAt-append b':' l.command tail v.command_word.0.0 v.command_word.1 in
    let at_tag = NotAt-append b'@' l.command tail v.command_word.0.0 v.command_at in
    rw
      (read_tags-write l.tags (write_prefix l.nick l.host body) v.tags_word
        (NotAt-write_prefix b' ' l.nick l.host body (λ q. omega arith) at_word)
        (NotAt-write_prefix b'@' l.nick l.host body (λ q. omega arith) at_tag))
      (rw
        (read_prefix-write l.tags l.nick l.host body v.nick_word v.nick_plain v.host_word
          v.host_behind at_word at_colon)
        (rw
          (read_cmd-write (record blank_msg { tags = l.tags; prefix = l.nick; host = l.host })
            l.command tail v.command_word (write_params-AtBreak l.middle l.trailing))
          (write_params_read _ l.middle l.trailing v.middle_params refl refl)))

-- ===== src/Protocol/Lines.antt =====
-- The framing of `Protocol::process` (fw/src/protocol.cpp) against its description on the whole input.
use astro_uni_board.Base.{
  ℕ, ◌≤◌, ◌<◌, ◌≡◌, refl, sym, ◌⊎◌, inl, inr, true, false, Option, none, some, List, [], ◌∷◌, ◌++◌,
  arith, length, length-append, leb, ◌==◌, if◌then◌else◌,
}
use astro_uni_board.Protocol.{
  Text, Framer, new_framer, Line, line, too_long, feed, process, cons_some,
}

-- A line of at most 46 characters.
abbrev checked_line : Text → Line
checked_line t = if leb (length t) 46 then line t else too_long

-- The lines of an input, by its text alone: `pending` is what stands since the last `:`, or nothing
-- if none stands open.
unfoldable pub lines_of : Option Text → Text → List Line
lines_of pending [] = []
lines_of none (c ∷ cs) =
    let opened = lines_of (some []) cs in
    let skipped = lines_of none cs in if c == 58 then opened else skipped
lines_of (some t) (c ∷ cs) =
    let opened = lines_of (some []) cs in
    let closed = lines_of none cs in
    let longer = lines_of (some (t ++ c ∷ [])) cs in
    if c == 58 then opened else if c == 35 then checked_line t ∷ closed else longer

-- The framer has read what is pending.
abbrev Holds : Framer → Option Text → Type 0
Holds f none = f.in_command ≡ false
Holds f (some t) =
    (f.in_command ≡ true)
    × (((f.overflow ≡ false) × (f.buf ≡ t) × (length t ≤ 46))
        ⊎ ((f.overflow ≡ true) × (46 < length t)))

-- What one character does, by what is pending.
abbrev after : Option Text → ℕ → Option Text × Option Line
after none c = if c == 58 then (some [], none) else (none, none)
after (some t) c =
    if c == 58
    then (some [], none)
    else if c == 35
    then (none, some (checked_line t))
    else (some (t ++ c ∷ []), none)

feed-after :
    (f : Framer) (p : Option Text) (c : ℕ)
    → Holds f p
    → ((feed f c).1 ≡ (after p c).1) × Holds (feed f c).0 (after p c).0
unfolding feed
feed-after f none c h = ground arith
feed-after f (some t) c (h, inl (fits, same, short)) = ground (arith, length-append t (c ∷ []))
feed-after f (some t) c (h, inr (over, long)) = ground (arith, length-append t (c ∷ []))

lines_of-after :
    (p : Option Text) (c : ℕ) (cs : Text)
    → lines_of p (c ∷ cs) ≡ cons_some (after p c).1 (lines_of (after p c).0 cs)
unfolding lines_of
lines_of-after none c cs = ground arith
lines_of-after (some t) c cs = ground arith

process-Holds :
    (cs : Text) (f : Framer) (p : Option Text) → Holds f p → process f cs ≡ lines_of p cs
unfolding process
process-Holds [] f none h = unfold lines_of in refl
process-Holds [] f (some t) h = unfold lines_of in refl
process-Holds (c ∷ cs) f p h =
    let (same, holds) = feed-after f p c h in
    rw (same, process-Holds cs (feed f c).0 (after p c).0 holds) (sym (lines_of-after p c cs))

-- From the start on, the firmware answers exactly the lines of its input: the text since the last `:`
-- at every `#` that has an open `:` before it, with an error instead where that is more than 46
-- characters; characters outside of `:` and `#` are skipped, and a second `:` starts the line again.
pub process-lines_of : (cs : Text) → process new_framer cs ≡ lines_of none cs
process-lines_of cs = process-Holds cs new_framer none refl

-- ===== src/Protocol.antt =====
-- fw/src/protocol.cpp: the lines between `:` and `#`, their parameters, and the identify gate. A
-- character is its code; a text is the list of its characters up to the terminating 0.
pub mod Numbers
pub mod Lines
pub mod Lists
pub mod FocuserBlock
pub mod FocuserHistory
pub mod FocuserTrust
pub mod RotatorBlock
pub mod FocuserCases
pub mod RotatorCases
use astro_uni_board.Base.{
  ℕ, suc, ◌+◌, ◌-◌, ◌*◌, Bool, true, false, not, ◌&&◌, ◌||◌, Option, none, some, List, [], ◌∷◌,
  ◌++◌, length, ltb, leb, ◌==◌, if◌then◌else◌,
}
use astro_uni_board.Base.Int.{ℤ, pos, neg, ltb_ℤ}
use astro_uni_board.Errors.{FwError, is_ok, bad_format, unknown_cmd, not_identified}
use astro_uni_board.Settings.{AxisId, axis_foc, axis_rot}

abbrev pub Text : Type 0
Text = List ℕ

abbrev pub proto_max_line : ℕ
proto_max_line = 46

abbrev pub proto_max_args : ℕ
proto_max_args = 6

abbrev pub is_digit : ℕ → Bool
is_digit c = leb 48 c && leb c 57

-- Up to the terminating 0.
unfoldable pub c_string : Text → Text
c_string [] = []
c_string (c ∷ cs) = let rest = c_string cs in if c == 0 then [] else c ∷ rest

-- The loop of `protoInt32`: it gives up as soon as no int32_t can come out.
unfoldable pub digits_loop : ℕ → Text → Option ℕ
digits_loop v [] = some v
digits_loop v (c ∷ cs) =
    let rest = digits_loop (v * 10 + (c - 48)) cs in
    if not (is_digit c) then none else if ltb 2147483648 (v * 10 + (c - 48)) then none else rest

abbrev pub is_sign : ℕ → Bool
is_sign c = c == 43 || c == 45

-- What follows the sign.
unfoldable pub magnitude_of : Text → Option ℕ
unfolding digits_loop
magnitude_of [] = none
magnitude_of (c ∷ cs) = digits_loop 0 (c ∷ cs)

abbrev pub in_int32 : Bool → ℕ → Option ℤ
in_int32 true n = if ltb 2147483648 n then none else some (neg n)
in_int32 false n = if ltb 2147483647 n then none else some (pos n)

abbrev pub signed : Bool → Option ℕ → Option ℤ
signed minus none = none
signed minus (some n) = in_int32 minus n

unfoldable pub proto_int32 : Text → Option ℤ
unfolding magnitude_of
proto_int32 [] = none
proto_int32 (c ∷ cs) =
    if is_sign c then signed (c == 45) (magnitude_of cs) else signed false (magnitude_of (c ∷ cs))

unfoldable pub proto_axis : Text → Option AxisId
proto_axis (c ∷ []) =
    if c == 70 || c == 102
    then some axis_foc
    else if c == 82 || c == 114
    then some axis_rot
    else none
proto_axis _ = none

-- The values between the commas.
abbrev pub add_char : ℕ → List Text → List Text
add_char c [] = (c ∷ []) ∷ []
add_char c (v ∷ vs) = (c ∷ v) ∷ vs

unfoldable pub split_commas : Text → List Text
split_commas [] = [] ∷ []
split_commas (c ∷ cs) = let rest = split_commas cs in if c == 44 then [] ∷ rest else add_char c rest

unfoldable pub some_empty : List Text → Bool
some_empty [] = false
some_empty ([] ∷ vs) = true
some_empty ((c ∷ v) ∷ vs) = some_empty vs

abbrev pub checked_values : List Text → Option (List Text)
checked_values vs = if ltb proto_max_args (length vs) || some_empty vs then none else some vs

-- The values of a text of which the one leading blank or comma was taken off.
abbrev pub values : Text → Option (List Text)
values [] = some []
values (c ∷ cs) = checked_values (split_commas (c ∷ cs))

unfoldable pub proto_split : Text → Option (List Text)
unfolding split_commas some_empty
proto_split [] = some []
proto_split (c ∷ cs) = if c == 32 || c == 44 then values cs else values (c ∷ cs)

-- The fields of `Protocol`; `buf` is its first `len` characters.
pub record Framer : Type 0 where
  pub buf : Text
  pub in_command : Bool
  pub overflow : Bool

abbrev pub new_framer : Framer
new_framer = record { buf = []; in_command = false; overflow = false }

-- A line that ended: its text, or that it was too long.
pub data Line : Type 0 where
  line : Text → Line
  too_long : Line

-- The body of the loop of `process`, up to the call of `handleCommand`.
unfoldable pub feed : Framer → ℕ → Framer × Option Line
feed f c =
    if c == 58
    then (record { buf = []; in_command = true; overflow = false }, none)
    else if c == 35
    then if not f.in_command
      then (f, none)
      else (record f { in_command = false }, some (if f.overflow then too_long else line f.buf))
    else if f.in_command
    then if ltb (length f.buf) proto_max_line
      then (record f { buf = f.buf ++ c ∷ [] }, none)
      else (record f { overflow = true }, none)
    else (f, none)

abbrev pub cons_some {ℓ} : {A : Type ℓ} → Option A → List A → List A
cons_some none xs = xs
cons_some (some x) xs = x ∷ xs

-- All lines that end in the input.
unfoldable pub process : Framer → Text → List Line
process f [] = []
process f (c ∷ cs) = let (f', out) = feed f c in cons_some out (process f' cs)

-- The block that answers a command, with its number and parameters.
pub data Route : Type 0 where
  refuse : FwError → Route
  to_common to_focuser to_rotator to_env : ℕ → Text → Route

abbrev by_number : ℕ → Text → Route
by_number cmd params =
    if leb 90 cmd
    then to_env cmd params
    else if leb 70 cmd
    then to_rotator cmd params
    else if leb 50 cmd
    then to_focuser cmd params
    else if leb 20 cmd
    then to_common cmd params
    else refuse unknown_cmd

-- `handleCommand`, and the line that was too long.
unfoldable pub route : Bool → Line → Route
unfolding c_string
route identified too_long = refuse bad_format
route identified (line (a ∷ b ∷ params)) =
    let cmd = (a - 48) * 10 + (b - 48) in
    if not (is_digit a) || not (is_digit b)
    then refuse bad_format
    else if not identified && not (cmd == 25) && not (cmd == 32)
    then refuse not_identified
    else by_number cmd (c_string params)
route identified (line _) = refuse bad_format

-- The class requests with which a host opens the port or sets it up, by the first two bytes of the
-- setup packet: `__wrap_USBD_LL_SetupStage`.
unfoldable pub opens_port : ℕ → ℕ → Bool
opens_port kind request = kind == 0x21 && (request == 0x20 || request == 0x22)

-- What `protoPrintf` prints: %d or %ld, %u, %X, %0<n>lX and %s.
pub data Field : Type 0 where
  dec : ℤ → Field
  num hex : ℕ → Field
  hex_wide : ℕ → ℕ → Field
  str : Text → Field

-- What a handler answers: `OK#`, `ERR,<code>#`, a number or two, or a word with its fields.
pub data Reply : Type 0 where
  ok : Reply
  error : FwError → Reply
  int : ℤ → Reply
  two : ℤ → ℤ → Reply
  report : Text → List Field → Reply

-- `reply` of the block handlers.
abbrev pub reply_of : FwError → Reply
reply_of e = if is_ok e then ok else error e

-- `oneValue` and `noValue`, without their error reply.
abbrev only_value : Option (List Text) → Option ℤ
only_value (some (v ∷ [])) = proto_int32 v
only_value _ = none

unfoldable pub one_value : Text → ℤ → ℤ → Option ℤ
one_value params lo hi = elim (only_value (proto_split params)) [
  | none ↦ none
  | some v ↦ if ltb_ℤ v lo || ltb_ℤ hi v then none else some v
]

abbrev is_none_given : Option (List Text) → Bool
is_none_given (some []) = true
is_none_given _ = false

unfoldable pub no_value : Text → Bool
no_value params = is_none_given (proto_split params)

-- ===== src/Cli/Terminal.antt =====
-- The terminal, and `ask_user` of src/bin/util.rs. A line is the list of its code points. Writing to
-- the terminal succeeds.

pub mod Answers
use magic_wormhole_rs.Common.{
  ℕ, ◌+◌, List, [], ◌∷◌, ◌++◌, Option, none, some, Bool, true, false, ◌&&◌, ◌||◌, Bytes, Outcome,
  ok, panic, Action, ltb, leb, ◌==◌, bytes_eq, if◌then◌else◌,
}
use magic_wormhole_rs.Common.Text.{codes}

-- What is still to be typed, line by line, where `none` is an input that cannot be read, and what
-- was printed. Behind the last line a read gives the empty line.
pub record Terminal : Type 0 where
  pub input : List (Option Bytes)
  pub printed : List Bytes

unfoldable pub print : Bytes → Terminal → Terminal
print text t = record t { printed = t.printed ++ (text ∷ []) }

-- `char::is_whitespace`
unfoldable pub is_whitespace : ℕ → Bool
is_whitespace x =
    (leb 9 x && leb x 13)
    || (x == 32)
    || (x == 133)
    || (x == 160)
    || (x == 5760)
    || (leb 8192 x && leb x 8202)
    || (x == 8232)
    || (x == 8233)
    || (x == 8239)
    || (x == 8287)
    || (x == 12288)

-- `str::to_lowercase` of a code point below 128; no other one has a letter of an answer, or a space,
-- in its lower case.
unfoldable pub lower : ℕ → ℕ
lower x = if leb 65 x && leb x 90 then x + 32 else x

unfoldable pub to_lowercase : Bytes → Bytes
unfolding lower
to_lowercase [] = []
to_lowercase (x ∷ xs) = lower x ∷ to_lowercase xs

unfoldable pub trim_start : Bytes → Bytes
unfolding is_whitespace
trim_start [] = []
trim_start (x ∷ xs) = let rest = trim_start xs in if is_whitespace x then rest else x ∷ xs

-- A character before what is kept of the text behind it.
keep : ℕ → Bytes → Bytes
unfolding is_whitespace
keep x [] = if is_whitespace x then [] else x ∷ []
keep x (y ∷ ys) = x ∷ y ∷ ys

unfoldable pub trim_end : Bytes → Bytes
unfolding keep
trim_end [] = []
trim_end (x ∷ xs) = keep x (trim_end xs)

unfoldable pub trim : Bytes → Bytes
unfolding trim_start trim_end
trim s = trim_end (trim_start s)

-- The `match` on an answer; `none` asks again.
unfoldable pub decide : Bool → Bytes → Option Bool
unfolding to_lowercase trim
decide default_answer line =
    let answer = trim (to_lowercase line) in
    if bytes_eq answer (codes "y") || bytes_eq answer (codes "yes")
    then some true
    else if bytes_eq answer (codes "n") || bytes_eq answer (codes "no")
    then some false
    else if bytes_eq answer []
    then some default_answer
    else none

-- The question, with its answers.
unfoldable pub prompt : Bytes → Bool → Bytes
prompt message default_answer =
    message
    ++ (codes " ("
        ++ ((if default_answer then codes "Y" else codes "y")
            ++ (codes "/" ++ ((if default_answer then codes "n" else codes "N") ++ codes ") "))))

unfoldable pub complaint : Bytes
complaint = codes "Please type y or n!\n"

module _ (message : Bytes) (default_answer : Bool) where
  -- The loop of `ask_user` on the lines to be typed, given what was printed.
  unfoldable pub ask_loop :
      {E : Type 0} → List (Option Bytes) → List Bytes → Outcome E Bool × Terminal
  unfolding decide
  ask_loop [] printed = (
    ok default_answer,
    record { input = []; printed = printed ++ (prompt message default_answer ∷ []) },
  )
  ask_loop (none ∷ input) printed =
      (panic, record { input = input; printed = printed ++ (prompt message default_answer ∷ []) })
  ask_loop (some line ∷ input) printed =
      let asked = printed ++ (prompt message default_answer ∷ []) in
      let again = ask_loop input (asked ++ (complaint ∷ [])) in
      elim (decide default_answer line) [
        | none ↦ again
        | some answer ↦ (ok answer, record { input = input; printed = asked })
      ]

  -- `ask_user`
  unfoldable pub ask_user : {E : Type 0} → Action Terminal E Bool
  unfolding ask_loop
  ask_user t = ask_loop t.input t.printed

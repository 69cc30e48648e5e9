-- ===== src/Cli/Receive/Safety.antt =====
-- What `receive` of src/bin/main.rs does to the files of the user.
use mathlib.Core.Path.{subst}
use magic_wormhole_rs.Common.{
  ◌≡◌, refl, ◌⊎◌, inl, inr, List, [], ◌++◌, Option, none, some, Bool, true, false, Bytes, Outcome,
  ok, err, panic, pending, Action, after, after-reach, if◌then◌else◌, Bool-cases, Option-cases, sym,
  ◌∙◌, ap,
}
use magic_wormhole_rs.Core.Crypto.{Crypto}
use magic_wormhole_rs.Transfer.Session.{Env}
use magic_wormhole_rs.Transfer.Receive.{ReceiveRequest, request_file}
use magic_wormhole_rs.Transit.Socket.{already_exists}
use magic_wormhole_rs.Cli.Terminal.{Terminal, ask_user}
use magic_wormhole_rs.Cli.Terminal.Answers.{Typed, Typed-more, ask_user-rest, ask_user-Typed}
use magic_wormhole_rs.Cli.Paths.{PathBuf, join, IsPlain, file_name-IsPlain}
use magic_wormhole_rs.Cli.Desk.{
  Desk, CliError, io_failed, Files, content_of, exists, put, in_session, in_terminal, open_new,
  open_truncated, is_some,
}
use magic_wormhole_rs.Cli.Receive.{
  receive, accept_offer, store, create, overwrite, confirm_override, reject_it, open_file,
  accept_into, chosen_name, receive_question, override_question,
}

-- The name of a received file: the user's, or a plain name.
pub Named : Option Bytes → Bytes → Type 0
Named renamed name = (renamed ≡ some name) ⊎ IsPlain name

-- What may become of the files: nothing but what others do to them; a new file of this name in the
-- target directory; or one that is replaced, by what the user has typed.
pub data Kept (others : Files → Files) (target_dir : PathBuf) (renamed : Option Bytes)
    (input : List (Option Bytes)) (files : Files) : Files → Type 0 where
  untouched : Kept others target_dir renamed input files files
  only_others : Kept others target_dir renamed input files (others files)
  created :
      (name content : Bytes)
      → Named renamed name
      → content_of (others files) (join target_dir name) ≡ none
      → Kept others target_dir renamed input files
          (put (join target_dir name) content (put (join target_dir name) [] (others files)))
  replaced :
      (name content : Bytes)
      → Named renamed name
      → Typed input
      → Kept others target_dir renamed input files
          (put (join target_dir name) content (put (join target_dir name) [] (others files)))

chosen_name-Named :
    (renamed : Option Bytes) (req : ReceiveRequest) (name : Bytes)
    → chosen_name renamed req ≡ some name
    → Named renamed name
unfolding chosen_name Named
chosen_name-Named none req name h = inr (file_name-IsPlain req.filename name h)
chosen_name-Named (some n) req name h = inl h

none_inside : (o : Option Bytes) → is_some o ≡ false → o ≡ none
none_inside none h = refl
none_inside (some b) h = cc

open_new_cases :
    (path : PathBuf) (files : Files)
    → ((e : CliError) × (open_new path files ≡ (err e, files)))
      ⊎ ((content_of files path ≡ none) × (open_new path files ≡ (ok tt, put path [] files)))
unfolding open_new exists
open_new_cases path files = elim (Bool-cases (is_some (content_of files path))) [
  | inl there ↦ inl (io_failed already_exists, rw (there, open_new) refl)
  | inr gone ↦ elim (Option-cases (files.denied path)) [
    | inl free ↦ inr (none_inside (content_of files path) gone, rw (gone, free, open_new) refl)
    | inr (e, denied) ↦ inl (io_failed e, rw (gone, denied, open_new) refl)
  ]
]

open_truncated_cases :
    (path : PathBuf) (files : Files)
    → ((e : CliError) × (open_truncated path files ≡ (err e, files)))
      ⊎ (open_truncated path files ≡ (ok tt, put path [] files))
unfolding open_truncated
open_truncated_cases path files = elim (Option-cases (files.denied path)) [
  | inl free ↦ inr (rw (free, open_truncated) refl)
  | inr (e, denied) ↦ inl (io_failed e, rw (denied, open_truncated) refl)
]

module _ (others : Files → Files) (target_dir : PathBuf) (renamed : Option Bytes) where
  Kept-more :
      (taken input rest : List (Option Bytes)) (files after_it : Files)
      → input ≡ taken ++ rest
      → Kept others target_dir renamed rest files after_it
      → Kept others target_dir renamed input files after_it
  Kept-more taken input rest files after_it h untouched = untouched
  Kept-more taken input rest files after_it h only_others = only_others
  Kept-more taken input rest files after_it h (created name content n e) = created name content n e
  Kept-more taken input rest files after_it h (replaced name content n t) =
      replaced name content n (Typed-more taken rest input h t)

  module _ (c : Crypto) (env : Env) (set_zip : Bytes → Bytes) where
    module _ (name : Bytes) (named : Named renamed name) (req : ReceiveRequest)
        (input : List (Option Bytes)) (d : Desk) where
      -- The files behind an opening and what follows it.
      abbrev Through : Outcome CliError (Unit {0}) × Files → Type 0
      Through r =
          Kept others target_dir renamed input d.files
            (after (r.0, record d { files = r.1 })
              (λ _. accept_into c env set_zip others (join target_dir name) req)).1.files

      create-Kept :
          Kept others target_dir renamed input d.files
            (create c env set_zip others (join target_dir name) req d).1.files
      unfolding create open_file accept_into
      create-Kept = elim (open_new_cases (join target_dir name) (others d.files)) [
        | inl (e, h) ↦ subst Through (sym h) only_others
        | inr (gone, h) ↦ subst Through (sym h) (created name _ named gone)
      ]

      overwrite-Kept :
          Typed input
          → Kept others target_dir renamed input d.files
              (overwrite c env set_zip others (join target_dir name) req d).1.files
      unfolding overwrite open_file accept_into
      overwrite-Kept typed = elim (open_truncated_cases (join target_dir name) (others d.files)) [
        | inl (e, h) ↦ subst Through (sym h) only_others
        | inr h ↦ subst Through (sym h) (replaced name _ named typed)
      ]

    reject_it-Kept :
        (input : List (Option Bytes)) (d : Desk)
        → Kept others target_dir renamed input d.files (reject_it c env set_zip others d).1.files
    unfolding reject_it in_session
    reject_it-Kept input d = untouched

    -- What follows a question.
    asked-Kept :
        (input : List (Option Bytes)) (d : Desk) (r : Outcome CliError Bool × Terminal)
        (f : Bool → Action Desk CliError (Unit {0}))
        → ((b : Bool)
            → r.0 ≡ ok b
            → Kept others target_dir renamed input d.files
                (f b (record d { terminal = r.1 })).1.files)
        → Kept others target_dir renamed input d.files
            (after (r.0, record d { terminal = r.1 }) f).1.files
    asked-Kept input d (ok b, t) f k = k b refl
    asked-Kept input d (err e, t) f k = untouched
    asked-Kept input d (panic, t) f k = untouched
    asked-Kept input d (pending, t) f k = untouched

    override_wanted :
        (name : Bytes) (named : Named renamed name) (req : ReceiveRequest) (d e : Desk) (b : Bool)
        → (b ≡ true → Typed d.terminal.input)
        → Kept others target_dir renamed d.terminal.input e.files
            ((if b
                then overwrite c env set_zip others (join target_dir name) req
                else reject_it c env set_zip others)
              e).1.files
    override_wanted name named req d e true k =
        overwrite-Kept name named req d.terminal.input e (k refl)
    override_wanted name named req d e false k = reject_it-Kept d.terminal.input e

    confirm_override-Kept :
        (name : Bytes) (named : Named renamed name) (req : ReceiveRequest) (d : Desk)
        → Kept others target_dir renamed d.terminal.input d.files
            (confirm_override c env set_zip others (join target_dir name) req d).1.files
    unfolding confirm_override in_terminal
    confirm_override-Kept name named req d =
        let question = override_question (join target_dir name) in
        let r : Outcome CliError Bool × Terminal = ask_user question false d.terminal in
        asked-Kept d.terminal.input d r _ λ b h.
          override_wanted name named req d (record d { terminal = r.1 }) b
            (λ e. ask_user-Typed CliError question d.terminal (h ∙ ap ok e))

    store-Kept :
        (name : Bytes) (named : Named renamed name) (req : ReceiveRequest) (d : Desk)
        → Kept others target_dir renamed d.terminal.input d.files
            (store c env set_zip others (join target_dir name) req d).1.files
    unfolding store
    store-Kept name named req d = elim (Bool-cases (exists (join target_dir name) d.files)) [
      | inl there ↦ rw there (confirm_override-Kept name named req d)
      | inr gone ↦ rw gone (create-Kept name named req d.terminal.input d)
    ]

    accept_offer-Kept :
        (req : ReceiveRequest) (d : Desk)
        → Kept others target_dir renamed d.terminal.input d.files
            (accept_offer c env set_zip others target_dir renamed req d).1.files
    unfolding accept_offer
    accept_offer-Kept req d = elim (Option-cases (chosen_name renamed req)) [
      | inl nameless ↦ rw nameless untouched
      | inr (name, h) ↦ rw h (store-Kept name (chosen_name-Named renamed req name h) req d)
    ]

    wanted-Kept :
        (b : Bool) (req : ReceiveRequest) (d : Desk)
        → Kept others target_dir renamed d.terminal.input d.files
            ((if b
                then accept_offer c env set_zip others target_dir renamed req
                else reject_it c env set_zip others)
              d).1.files
    wanted-Kept true req d = accept_offer-Kept req d
    wanted-Kept false req d = reject_it-Kept d.terminal.input d

    -- Receiving a file touches no file but one: a name in the target directory that the user has
    -- given, or that is no path out of that directory, whatever the sender offers. A file that stands
    -- there, even one that another program put there in the meantime, is replaced only if the user
    -- has typed y or yes.
    pub receive-Kept :
        (d : Desk)
        → Kept others target_dir renamed d.terminal.input d.files
            (receive c env set_zip others target_dir renamed d).1.files
    unfolding receive in_session in_terminal
    receive-Kept d =
        after-reach (λ e. Kept others target_dir renamed d.terminal.input d.files e.files)
          (in_session (request_file c env set_zip) d) _ untouched
          λ req _.
            let e : Desk = (in_session (request_file c env set_zip) d).1 in
            let r : Outcome CliError Bool × Terminal =
              ask_user (receive_question req) true e.terminal in
            let (taken, h) = ask_user-rest CliError (receive_question req) true e.terminal in
            asked-Kept d.terminal.input e r _ λ b _.
              Kept-more taken d.terminal.input r.1.input d.files _ h
                (wanted-Kept b req (record e { terminal = r.1 }))

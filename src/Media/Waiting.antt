-- ===== src/Media/Waiting.antt =====
-- How long the leg of a user waits for its bridge in media.py.
use dial_pass.Prelude.{
  ℕ, zero, suc, ◌+◌, ◌≡◌, refl, ap, arith, Bool, true, none, List, [], ◌∷◌, ◌∙◌,
}
use dial_pass.Prelude.Dict.{lookup}
use dial_pass.Media.{App}
use dial_pass.Media.Socket.{
  Start, Read, start, waited, waiting, ended, Socket, accepted, text_or, group_of, is_user, finish,
  try_attach, start_leg, step,
}

-- The handler of one socket by itself.
unfoldable pub reads : Bool → List Read → Socket × App → Socket × App
reads refused [] r = r
reads refused (x ∷ xs) (s, a) = reads refused xs (step refused x s a)

abbrev pub pauses : ℕ → List Read
pauses zero = []
pauses (suc n) = waited ∷ pauses n

abbrev pub waits : ℕ → Socket → Socket
waits n s = record s { mode = waiting n }

try_missing :
    (n : ℕ) (refused : Bool) (s : Socket) (a : App)
    → lookup s.group a.bridges ≡ none
    → try_attach (suc n) refused s a ≡ (waits n s, a)
unfolding try_attach
try_missing n refused s a missing = rw missing refl

step-waits :
    (n : ℕ) (refused : Bool) (s : Socket) (a : App)
    → lookup s.group a.bridges ≡ none
    → step refused waited (waits (suc n) s) a ≡ (waits n s, a)
unfolding step
step-waits n refused s a missing = try_missing n refused (waits (suc n) s) a missing

-- Each pause takes one try.
reads-waits :
    (k n : ℕ) (refused : Bool) (s : Socket) (a : App)
    → lookup s.group a.bridges ≡ none
    → reads refused (pauses k) (waits (k + n) s, a) ≡ (waits n s, a)
unfolding reads
reads-waits zero n refused s a missing = let e : 0 + n ≡ n = omega arith in rw e refl
reads-waits (suc k) n refused s a missing =
    let e : suc k + n ≡ suc (k + n) = omega arith in
    rw e (
      ap (reads refused (pauses k)) (step-waits (k + n) refused s a missing)
      ∙ reads-waits k n refused s a missing)

-- The last pause ends the handler.
reads-ended :
    (k : ℕ) (refused : Bool) (s : Socket) (a : App)
    → s.held ≡ none
    → lookup s.group a.bridges ≡ none
    → reads refused (pauses (suc k)) (waits k s, a) ≡ (record s { mode = ended }, a)
unfolding reads step try_attach finish
reads-ended zero refused s a alone missing = rw alone refl
reads-ended (suc k) refused s a alone missing =
    ap (reads refused (pauses (suc k))) (step-waits k refused s a missing)
    ∙ reads-ended k refused s a alone missing

reads-cons :
    (refused : Bool) (x : Read) (xs : List Read) (s : Socket) (a : App)
    → reads refused (x ∷ xs) (s, a) ≡ reads refused xs (step refused x s a)
unfolding reads
reads-cons refused x xs s a = refl

step-start :
    (refused : Bool) (m : Start) (a : App)
    → is_user m.role_param ≡ true
    → lookup (group_of m) a.bridges ≡ none
    → step refused (start m) accepted a ≡ (
      waits 99 (record accepted { group = group_of m; user_stream = text_or m.stream_sid "" }),
      a,
    )
unfolding step start_leg
step-start refused m a user missing = rw user (
    try_missing 99 refused
      (record accepted { group = group_of m; user_stream = text_or m.stream_sid "" }) a missing)

-- The leg of a user whose group has no bridge looks for it a hundred times, with a pause after
-- each: after fewer than a hundred pauses it still waits, with the tries that are left, and after a
-- hundred it has ended, and nothing of the process has changed.
pub user_leg_gives_up :
    (refused : Bool) (m : Start) (a : App)
    → is_user m.role_param ≡ true
    → lookup (group_of m) a.bridges ≡ none
    → let s : Socket = record accepted {
      group = group_of m;
      user_stream = text_or m.stream_sid "";
    } in
      ((k n : ℕ) → k + n ≡ 99 → reads refused (start m ∷ pauses k) (accepted, a) ≡ (waits n s, a))
      × (reads refused (start m ∷ pauses 100) (accepted, a) ≡ (record s { mode = ended }, a))
user_leg_gives_up refused m a user missing =
    let s : Socket = record accepted {
      group = group_of m;
      user_stream = text_or m.stream_sid "";
    } in
    let begun = step-start refused m a user missing in
    (
      λ k n e.
          let rest : reads refused (pauses k) (waits 99 s, a) ≡ (waits n s, a) =
            rw (← e) (reads-waits k n refused s a missing) in
          reads-cons refused (start m) (pauses k) accepted a
          ∙ ap (reads refused (pauses k)) begun
          ∙ rest,
      reads-cons refused (start m) (pauses 100) accepted a
          ∙ ap (reads refused (pauses 100)) begun
          ∙ reads-ended 99 refused s a refl missing,
    )

-- ===== src/Auth/Invitations/Open.antt =====
-- internal/auth/invitation.go: the open invitations of an address.
use tourney_api.Prelude.{
  ℕ, suc, ◌+◌, ◌≡◌, ◌≢◌, ◌≤◌, refl, sym, ap, ◌∙◌, ◌⊎◌, inl, inr, true, false, Bool-cases, Option,
  none, some, Option-cases, List, [], ◌∷◌, map, if◌then◌else◌, arith,
}
use tourney_api.Auth.Email.{Bytes, normalize_email, same_bytes, same_bytes-eq}
use tourney_api.Auth.Invitations.{
  Invitation, Allowlist, is_revoked, is_open, find_open, not_invited, find_active_by_email, invite,
  accept_row, mark_accepted, revoke_row, revoke, Change, send, accept, withdraw, change, changes,
}

-- The invitations of an address that are not revoked.
abbrev pub open_count : Bytes → List Invitation → ℕ
open_count e [] = 0
open_count e (i ∷ rows) = if is_open e i then suc (open_count e rows) else open_count e rows

-- A change of rows that keeps the address and revives none.
abbrev Keeps : (Invitation → Invitation) → Type 0
Keeps f =
    (i : Invitation)
    → ((f i).email ≡ i.email) × (is_revoked i.status ≡ true → is_revoked (f i).status ≡ true)

accept_row-Keeps : (id now : ℕ) → Keeps (accept_row id now)
unfolding accept_row
accept_row-Keeps id now i = ground arith

revoke_row-Keeps : (id now : ℕ) → Keeps (revoke_row id now)
unfolding revoke_row
revoke_row-Keeps id now i = ground arith

is_open-Keeps :
    (e : Bytes) (f : Invitation → Invitation) (i : Invitation)
    → Keeps f
    → is_open e (f i) ≡ true
    → is_open e i ≡ true
unfolding is_open
is_open-Keeps e f i keeps h =
    let (same, stays) = keeps i in
    let address : same_bytes (f i).email e ≡ same_bytes i.email e = ap (λ x. same_bytes x e) same in
    ground (arith, h, stays, address)

open_count-map :
    (e : Bytes) (f : Invitation → Invitation) (rows : List Invitation)
    → Keeps f
    → open_count e (map f rows) ≤ open_count e rows
open_count-map e f [] keeps = omega arith
open_count-map e f (i ∷ rows) keeps =
    let rest = open_count-map e f rows keeps in
    elim (Bool-cases (is_open e (f i))) [
      | inl after ↦ rw (after, is_open-Keeps e f i keeps after) (omega (arith, rest))
      | inr closed ↦ elim (Bool-cases (is_open e i)) [
        | inl before ↦ rw (closed, before) (omega (arith, rest))
        | inr never ↦ rw (closed, never) rest
      ]
    ]

closed-Keeps :
    (e : Bytes) (f : Invitation → Invitation) (i : Invitation)
    → Keeps f
    → is_open e i ≡ false
    → is_open e (f i) ≡ false
closed-Keeps e f i keeps h = elim (Bool-cases (is_open e (f i))) [
  | inr closed ↦ closed
  | inl open_ ↦
      let clash = sym (is_open-Keeps e f i keeps open_) ∙ h in
      let no_row : ⊥ = ground (arith, clash) in elim no_row [ ]
]

revoke_row_closed :
    (e : Bytes) (id now : ℕ) (i : Invitation) → i.id ≡ id → is_open e (revoke_row id now i) ≡ false
unfolding is_open revoke_row
revoke_row_closed e id now i same = ground (arith, same)

-- Revoking the open invitation of an address leaves one fewer.
open_count-revoke :
    (e : Bytes) (now : ℕ) (rows : List Invitation) (i : Invitation)
    → find_open e rows ≡ some i
    → open_count e (map (revoke_row i.id now) rows) + 1 ≤ open_count e rows
unfolding find_open
open_count-revoke e now [] i found = let no_row : ⊥ = ground (arith, found) in elim no_row [ ]
open_count-revoke e now (x ∷ rows) i found = elim (Bool-cases (is_open e x)) [
  | inl here ↦
      let same : x ≡ i = ground (arith, found, here) in
      let rest = open_count-map e (revoke_row i.id now) rows (revoke_row-Keeps i.id now) in
      rw (revoke_row_closed e i.id now x (ap (λ y. y.id) same), here) (omega (arith, rest))
  | inr closed ↦
      let rest = open_count-revoke e now rows i (ground (arith, found, closed)) in
      rw (closed-Keeps e (revoke_row i.id now) x (revoke_row-Keeps i.id now) closed, closed) rest
]

find_open-none :
    (e : Bytes) (rows : List Invitation) → open_count e rows ≡ 0 → find_open e rows ≡ none
unfolding find_open
find_open-none e [] h = refl
find_open-none e (i ∷ rows) h = ground (arith, h, find_open-none e rows)

none-find_open :
    (e : Bytes) (rows : List Invitation) → find_open e rows ≡ none → open_count e rows ≡ 0
unfolding find_open
none-find_open e [] h = refl
none-find_open e (i ∷ rows) h = ground (arith, h, none-find_open e rows)

-- An invitation that is sent counts for its address, which had none open.
open_count-invite :
    (e email : Bytes) (expires : Option ℕ) (now : ℕ) (s : Allowlist)
    → (open_count e (invite email expires now s).0.rows ≤ open_count e s.rows)
      ⊎ ((normalize_email email ≡ e) × (open_count e (invite email expires now s).0.rows ≤ 1))
unfolding invite is_open
open_count-invite e email expires now s =
    elim (Option-cases (find_open (normalize_email email) s.rows)) [
      | inr (i, f) ↦ inl (rw (invite, f) (omega arith))
      | inl f ↦
          let free = none-find_open (normalize_email email) s.rows f in
          elim (Bool-cases (same_bytes (normalize_email email) e)) [
            | inr other ↦ inl (rw (invite, f, other) (omega arith))
            | inl same ↦
                let address = same_bytes-eq (normalize_email email) e same in
                let none_yet : open_count e s.rows ≡ 0 =
                  ap (λ a. open_count a s.rows) (sym address) ∙ free in
                inr (address, rw (invite, f, same) (omega (arith, none_yet)))
          ]
    ]

-- The changes send no invitation to the address.
abbrev pub NoneSent : Bytes → List (Change × ℕ) → Type 0
NoneSent e [] = Unit
NoneSent e ((send email expires, now) ∷ cs) = (normalize_email email ≢ e) × NoneSent e cs
NoneSent e ((accept id, now) ∷ cs) = NoneSent e cs
NoneSent e ((withdraw id, now) ∷ cs) = NoneSent e cs

open_count-change :
    (e : Bytes) (c : Change) (now : ℕ) (s : Allowlist)
    → open_count e s.rows ≤ 1
    → open_count e (change c now s).rows ≤ 1
unfolding change mark_accepted revoke
open_count-change e (send email expires) now s one =
    elim (open_count-invite e email expires now s) [
      | inl fewer ↦ omega (arith, fewer, one)
      | inr h ↦ h.1
    ]
open_count-change e (accept id) now s one =
    omega (arith, open_count-map e (accept_row id now) s.rows (accept_row-Keeps id now), one)
open_count-change e (withdraw id) now s one =
    omega (arith, open_count-map e (revoke_row id now) s.rows (revoke_row-Keeps id now), one)

-- An address has at most one invitation that is not revoked, whatever changes were made from a list
-- in which it was so.
pub open_count-changes :
    (e : Bytes) (cs : List (Change × ℕ)) (s : Allowlist)
    → open_count e s.rows ≤ 1
    → open_count e (changes cs s).rows ≤ 1
unfolding changes
open_count-changes e [] s one = one
open_count-changes e (c ∷ cs) s one =
    open_count-changes e cs (change c.0 c.1 s) (open_count-change e c.0 c.1 s one)

stays_closed :
    (e : Bytes) (cs : List (Change × ℕ)) (s : Allowlist)
    → NoneSent e cs
    → open_count e s.rows ≡ 0
    → open_count e (changes cs s).rows ≡ 0
unfolding changes change mark_accepted revoke
stays_closed e [] s quiet closed = closed
stays_closed e ((send email expires, now) ∷ cs) s quiet closed =
    stays_closed e cs (invite email expires now s).0 quiet.1
      (elim (open_count-invite e email expires now s) [
        | inl fewer ↦ omega (arith, fewer, closed)
        | inr h ↦ absurd (quiet.0 h.0)
      ])
stays_closed e ((accept id, now) ∷ cs) s quiet closed =
    stays_closed e cs (mark_accepted id now s) quiet
      (omega (arith, open_count-map e (accept_row id now) s.rows (accept_row-Keeps id now), closed))
stays_closed e ((withdraw id, now) ∷ cs) s quiet closed =
    stays_closed e cs (revoke id now s) quiet
      (omega (arith, open_count-map e (revoke_row id now) s.rows (revoke_row-Keeps id now), closed))

closed_refused :
    (email : Bytes) (now : ℕ) (s : Allowlist)
    → open_count (normalize_email email) s.rows ≡ 0
    → find_active_by_email email now s ≡ not_invited
unfolding find_active_by_email
closed_refused email now s closed =
    rw (find_active_by_email, find_open-none (normalize_email email) s.rows closed) refl

-- When the invitation that an address is found with is revoked, the address is not invited any more
-- and is not told that there was one, whatever changes follow but an invitation sent to it. The
-- address had at most one that was not revoked.
pub find_active_by_email-revoke :
    (email : Bytes) (now later : ℕ) (cs : List (Change × ℕ)) (s : Allowlist) (i : Invitation)
    → open_count (normalize_email email) s.rows ≤ 1
    → find_open (normalize_email email) s.rows ≡ some i
    → NoneSent (normalize_email email) cs
    → find_active_by_email email later (changes cs (revoke i.id now s)) ≡ not_invited
unfolding revoke
find_active_by_email-revoke email now later cs s i one found quiet =
    let e = normalize_email email in
    let fewer = open_count-revoke e now s.rows i found in
    closed_refused email later (changes cs (revoke i.id now s))
      (stays_closed e cs (revoke i.id now s) quiet (omega (arith, fewer, one)))

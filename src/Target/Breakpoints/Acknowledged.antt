-- ===== src/Target/Breakpoints/Acknowledged.antt =====
-- Setting, removing and replacing code breakpoints where MSIM acknowledges every request.
use msim_dap.Common.{
  ℕ, ◌≡◌, ◌≢◌, refl, ap, ◌∙◌, arith, Bool, true, false, not, ◌&&◌, ◌||◌, Option, none, some, List,
  [], ◌∷◌, ◌++◌, if◌then◌else◌, ◌==◌, nat_eq, int_eq, string_eq, list_eq, Bool-cases, Option-cases,
  same, eq_self, differ, inl, inr,
}
use msim_dap.Common.Int.{ℤ}
use msim_dap.Common.Map.{lookup, contains, contains-set_insert, contains-set_remove, lookup-insert}
use msim_dap.Common.Results.{Result, ok, err}
use msim_dap.Msim.Frame.{Request, set_code_breakpoint, remove_code_breakpoint}
use msim_dap.Msim.Messages.{MsimError, RawResponse, to_result}
use msim_dap.Target.{
  FilePath, TargetError, address_not_found, Exchange, Env, MsimTarget, send_raw, send, request,
}
use msim_dap.Target.Breakpoints.{
  or_default, add_bp, drop_address, drop_entry, set_code_bp, remove_code_bp, remove_missing,
}
use msim_dap.Target.Breakpoints.Log.{acknowledged}

-- MSIM acknowledges every request, whatever was exchanged before.
abbrev pub Acknowledges : Env → Type 0
Acknowledges env = (log : List Exchange) (r : Request) → acknowledged (env.answer log r) ≡ true

abbrev pub is_armed : ℕ → MsimTarget → Bool
is_armed a t = contains a t.bp_store.bps_addresses

abbrev pub bps_of : FilePath → MsimTarget → Option (List (ℤ × ℕ))
bps_of path t = lookup path t.bp_store.bps_per_file

pub acknowledged-ok :
    (reply : Result MsimError RawResponse)
    → acknowledged reply ≡ true
    → (r : RawResponse) × (reply ≡ ok r) × (to_result r ≡ ok r)
unfolding to_result
acknowledged-ok (err e) h = absurd (ground (arith, h))
acknowledged-ok (ok r) h = (r, refl, ground (arith, h))

module _ (env : Env) (source : FilePath) where
  -- Whether a line of the file stands at an address.
  abbrev pub stands_at : ℤ → ℕ → Bool
  stands_at line b = elim (env.index.get_address source line) [ none ↦ false | some a ↦ a == b ]

  pub stands_at-found :
      (line : ℤ) (a b : ℕ)
      → env.index.get_address source line ≡ some a
      → stands_at line b ≡ (a == b)
  stands_at-found line a b h = rw (h, stands_at) refl

  pub stands_at-missing :
      (line : ℤ) (b : ℕ) → env.index.get_address source line ≡ none → stands_at line b ≡ false
  stands_at-missing line b h = rw (h, stands_at) refl

  -- Whether the first loop of `replace_code_bps` removes the breakpoint at an address.
  abbrev pub is_gone : List ℤ → List (ℤ × ℕ) → ℕ → Bool
  is_gone lines [] b = false
  is_gone lines ((line, _) ∷ old) b =
      (not (contains line lines) && stands_at line b) || is_gone lines old b

module _ (env : Env) (acks : Acknowledges env) where
  -- A request then succeeds, and changes nothing but what was exchanged.
  pub request-acknowledged :
      (r : Request) (t : MsimTarget)
      → (response : RawResponse) × (log : List Exchange) × (log
          ≡ (r, env.answer t.exchanges r) ∷ t.exchanges)
        × (request env r t ≡ (ok response, record t { exchanges = log }))
  unfolding request send send_raw
  request-acknowledged r t =
      let (response, answered, fine) =
        acknowledged-ok (env.answer t.exchanges r) (acks t.exchanges r) in
      (response, (r, env.answer t.exchanges r) ∷ t.exchanges, refl, rw (answered, fine) refl)

  module _ (source : FilePath) where
    -- What setting a breakpoint at an address that the index has comes to.
    abbrev IsBpSet : ℕ → MsimTarget → Result TargetError ℕ × MsimTarget → Type 0
    IsBpSet a t (result, t') =
        (result ≡ ok a)
        × ((b : ℕ) → is_armed b t' ≡ ((a == b) || is_armed b t))
        × ((other : FilePath) → source ≢ other → bps_of other t' ≡ bps_of other t)

    add_bp-IsBpSet :
        (line : ℤ) (a : ℕ) (t : MsimTarget) (log : List Exchange)
        → IsBpSet a t (ok a, add_bp source line a (record t { exchanges = log }))
    unfolding add_bp
    add_bp-IsBpSet line a t log = (
      refl,
      λ b. contains-set_insert a b t.bp_store.bps_addresses,
      λ other h.
          lookup-insert source other _ t.bp_store.bps_per_file ∙ rw (differ source other h) refl,
    )

    pub set_code_bp-IsBpSet :
        (line : ℤ) (a : ℕ) (t : MsimTarget)
        → env.index.get_address source line ≡ some a
        → IsBpSet a t (set_code_bp env source line t)
    unfolding set_code_bp
    set_code_bp-IsBpSet line a t found = elim (Bool-cases (is_armed a t)) [
      | inl known ↦
          rw (found, set_code_bp, known)
            (refl, λ b. ground (arith, known, same a b), λ other h. refl)
      | inr new ↦
          let (response, log, _, sent) = request-acknowledged (set_code_breakpoint a) t in
          rw (found, set_code_bp, new, sent) (add_bp-IsBpSet line a t log)
    ]

    -- The breakpoints stored for the file then: one more, unless its address was known.
    abbrev pub with_bp : ℤ → ℕ → MsimTarget → Option (List (ℤ × ℕ))
    with_bp line a t =
        if is_armed a t
        then bps_of source t
        else some (or_default (bps_of source t) ++ ((line, a) ∷ []))

    add_bp-stored :
        (line : ℤ) (a : ℕ) (t : MsimTarget) (log : List Exchange)
        → bps_of source (add_bp source line a (record t { exchanges = log }))
          ≡ some (or_default (bps_of source t) ++ ((line, a) ∷ []))
    unfolding add_bp
    add_bp-stored line a t log =
        lookup-insert source source _ t.bp_store.bps_per_file ∙ rw (eq_self source) refl

    pub set_code_bp-stored :
        (line : ℤ) (a : ℕ) (t : MsimTarget)
        → env.index.get_address source line ≡ some a
        → bps_of source (set_code_bp env source line t).1 ≡ with_bp line a t
    unfolding set_code_bp
    set_code_bp-stored line a t found = elim (Bool-cases (is_armed a t)) [
      | inl known ↦ rw (found, set_code_bp, known) refl
      | inr new ↦
          let (response, log, _, sent) = request-acknowledged (set_code_breakpoint a) t in
          rw (found, set_code_bp, new, sent) (add_bp-stored line a t log)
    ]

    pub set_code_bp-missing :
        (line : ℤ) (t : MsimTarget)
        → env.index.get_address source line ≡ none
        → set_code_bp env source line t ≡ (err (address_not_found source line), t)
    unfolding set_code_bp
    set_code_bp-missing line t missing = rw (missing, set_code_bp) refl

    -- Removing a breakpoint while no breakpoints of its file are stored.
    abbrev IsGone : ℕ → MsimTarget → MsimTarget → Type 0
    IsGone a t t' =
        ((b : ℕ) → is_armed b t' ≡ (if a == b then false else is_armed b t))
        × (t'.bp_store.bps_per_file ≡ t.bp_store.bps_per_file)

    drop_entry-cleared :
        (a : ℕ) (t : MsimTarget) → bps_of source t ≡ none → drop_entry source a t ≡ t
    unfolding drop_entry
    drop_entry-cleared a t cleared = rw (cleared, drop_entry) refl

    remove_code_bp-IsGone :
        (line : ℤ) (a : ℕ) (t : MsimTarget)
        → env.index.get_address source line ≡ some a
        → bps_of source t ≡ none
        → IsGone a t (remove_code_bp env source line t).1
    unfolding remove_code_bp drop_address
    remove_code_bp-IsGone line a t found cleared = elim (Bool-cases (is_armed a t)) [
      | inl known ↦
          let (response, log, _, sent) =
            request-acknowledged (remove_code_breakpoint a) (drop_address a t) in
          rw
            (
              found,
              remove_code_bp,
              known,
              sent,
              drop_entry-cleared a (record (drop_address a t) { exchanges = log }) cleared,
            )
            (λ b. contains-set_remove a b t.bp_store.bps_addresses, refl)
      | inr unknown ↦
          rw (found, remove_code_bp, unknown, drop_entry-cleared a t cleared)
            (λ b. ground (arith, unknown, same a b), refl)
    ]

    remove_code_bp-missing :
        (line : ℤ) (t : MsimTarget)
        → env.index.get_address source line ≡ none
        → (remove_code_bp env source line t).1 ≡ t
    unfolding remove_code_bp
    remove_code_bp-missing line t missing = rw (missing, remove_code_bp) refl

    -- What the first loop of `replace_code_bps` leaves.
    abbrev IsRemoved : List ℤ → List (ℤ × ℕ) → MsimTarget → MsimTarget → Type 0
    IsRemoved lines old t t' =
        ((b : ℕ) → is_armed b t' ≡ (is_armed b t && not (is_gone env source lines old b)))
        × (t'.bp_store.bps_per_file ≡ t.bp_store.bps_per_file)

    remove_one :
        (lines : List ℤ) (line : ℤ) (a : ℕ) (t : MsimTarget)
        → bps_of source t ≡ none
        → contains line lines ≡ false
        → IsRemoved lines ((line, a) ∷ []) t (remove_code_bp env source line t).1
    remove_one lines line a t cleared gone =
        elim (Option-cases (env.index.get_address source line)) [
          | inl missing ↦
              rw (remove_code_bp-missing line t missing)
                (λ b. ground (arith, gone, stands_at-missing env source line b missing), refl)
          | inr (at, found) ↦
              let (armed, files) = remove_code_bp-IsGone line at t found cleared in
              (
                λ b. ground (arith, gone, armed b, stands_at-found env source line at b found),
                files,
              )
        ]

    pub remove_missing-IsRemoved :
        (lines : List ℤ) (old : List (ℤ × ℕ)) (t : MsimTarget)
        → bps_of source t ≡ none
        → IsRemoved lines old t (remove_missing env source lines old t)
    unfolding remove_missing
    remove_missing-IsRemoved lines [] t cleared = (λ b. ground arith, refl)
    remove_missing-IsRemoved lines ((line, a) ∷ old) t cleared =
        elim (Bool-cases (contains line lines)) [
          | inl kept ↦
              let (armed, files) = remove_missing-IsRemoved lines old t cleared in
              rw (kept, remove_missing) (λ b. ground (arith, armed b), files)
          | inr gone ↦
              let (armed, files) = remove_one lines line a t cleared gone in
              let (_, t') = remove_code_bp env source line t in
              let (armed', files') =
                remove_missing-IsRemoved lines old t' (ap (lookup source) files ∙ cleared) in
              rw (gone, remove_missing)
                (λ b. ground (arith, armed b, armed' b, gone), files' ∙ files)
        ]

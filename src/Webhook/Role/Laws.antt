-- ===== src/Webhook/Role/Laws.antt =====
-- Which roles the webhook admits, and which it lets go.
use dbchan.Base.{◌⊎◌, if◌then◌else◌}
use dbchan.Base.{
  ◌≡◌, ◌↔◌, refl, inl, inr, Bool, true, false, List, [], ◌∷◌, ◌++◌, arith, Bool-cases, any, length,
}
use dbchan.Base.Text.{String, ◌==◌, eq_iff}
use dbchan.Base.Prog.{Result, Error, ok, err, ◌>>=◌, catch}
use dbchan.Api.{DatabaseRole, User}
use dbchan.Cluster.{Kind, World, Trace}
use dbchan.Cluster.Calls.{ask, list_in}
use dbchan.Webhook.Checks.{object}
use dbchan.Webhook.Role.{
  FieldError, admitted, verdict, invalid, users_of, all_errors, validate_change, validate_update,
  find_users_using_role, validate_removal, validate_delete,
}

-- No user of the list has the role.
abbrev pub Unused : String → List User → Type 0
Unused name [] = Unit
Unused name (u ∷ us) = (any (λ r. r == name) u.spec.roles ≡ false) × Unused name us

users_of-Unused :
    (name : String) (us : List User) → (length (users_of name us) ≡ 0) ↔ Unused name us
unfolding users_of
users_of-Unused name [] = (λ h. tt, λ h. refl)
users_of-Unused name (u ∷ us) =
    let rest = users_of-Unused name us in
    elim (Bool-cases (any (λ r. r == name) u.spec.roles)) [
      | inl e ↦ rw e (λ h. grind arith, λ h. grind arith)
      | inr e ↦ rw e (λ h. (refl, rest.0 h), λ h. rest.1 h.1)
    ]

-- No errors are a pass, and an error stays one under further ones.
verdict-admitted : (es : List FieldError) → verdict es ≡ admitted → es ≡ []
verdict-admitted [] h = refl
verdict-admitted (e ∷ es) h = cc

append-empty : (es fs : List FieldError) → es ++ fs ≡ [] → fs ≡ []
append-empty [] fs h = h
append-empty (e ∷ es) fs h = cc

result : {A : Type 0} (m : Result Error A) → ((a : A) × (m ≡ ok a)) ⊎ ((e : Error) × (m ≡ err e))
result (ok a) = inl (a, refl)
result (err e) = inr (e, refl)

moved_error :
    (b : Bool) (es : List FieldError) (path : List String) (text : String)
    → verdict (es ++ (if b then [] else invalid path text)) ≡ admitted
    → b ≡ true
moved_error true es path text h = refl
moved_error false es path text h =
    let none_left =
      append-empty es (invalid path text) (verdict-admitted (es ++ invalid path text) h) in
    cc

module _ (w : World) where
  -- `ValidateDelete` of the role webhook, when it is called (it is registered for create and update
  -- only), accepts a role exactly if the users of its namespace could be listed and none has the role.
  pub validate_delete-Unused :
      (r : DatabaseRole) (t : Trace)
      → ((validate_delete w (object Kind.role r) t).0 ≡ ok tt)
        ↔ ((us : List User) × (w.list_in Kind.user r.namespace t ≡ ok us) × Unused r.name us)
  unfolding validate_delete validate_removal find_users_using_role list_in ask ◌>>=◌ catch
  validate_delete-Unused r t = elim (result (w.list_in Kind.user r.namespace t)) [
    | inl (us, found) ↦ (
      λ h. (us, found, (users_of-Unused r.name us).0 (ground arith)),
      λ (vs, again, unused). let none_left = (users_of-Unused r.name vs).1 unused in ground arith,
    )
    | inr (e, failed) ↦ (λ h. absurd (ground arith), λ (us, found, unused). cc)
  ]

  -- An update that names another datastore is never admitted.
  pub validate_update-same_datastore :
      (old new : DatabaseRole) (t : Trace)
      → (validate_update w (object Kind.role old) (object Kind.role new) t).0 ≡ ok admitted
      → old.spec.datastore_ref.name ≡ new.spec.datastore_ref.name
  unfolding validate_update validate_change ◌>>=◌
  validate_update-same_datastore old new t h =
      let same = eq_iff old.spec.datastore_ref.name new.spec.datastore_ref.name in
      elim (result (all_errors w new t).0) [
        | inl (es, ran) ↦
            (let moved =
                moved_error (old.spec.datastore_ref.name == new.spec.datastore_ref.name) es
                  ("spec" ∷ "datastoreRef" ∷ "name" ∷ []) "datastoreRef.name cannot be changed" in
              ground arith)
        | inr (e, failed) ↦ ground arith
      ]

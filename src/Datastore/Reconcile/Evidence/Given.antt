-- ===== src/Datastore/Reconcile/Evidence/Given.antt =====
-- The writes of a status, and the search for the secret.
use dbchan.Base.{
  ◌≡◌, ◌≢◌, refl, inl, Bool, true, false, Option, some, none, List, ◌∷◌, if◌then◌else◌, arith,
}
use dbchan.Base.Text.{String, ◌<>◌, eq_iff}
use dbchan.Base.Prog.{Error, Result, ok, err, on_none}
use dbchan.Base.Prog.Triples.{
  Post, Triple, Triple-bind, Triple-pure, Triple-raise, Triple-catch, Triple-weaken, Triple-on_none,
  Keeps, Keeps-if, Keeps-pure,
}
use dbchan.Api.{ObjectKey, Datastore, Secret, lookup}
use dbchan.Cluster.{Kind, Trace, World, got, listed, status_updated}
use dbchan.Cluster.Calls.{get, list, update_status}
use dbchan.Cluster.Rules.{IsStable, Triple-ask}
use dbchan.Cluster.History.{Once, Always}
use dbchan.Controller.{Outcome, retry_later, find_by_name}
use dbchan.Datastore.Reconcile.{
  save_status, park, init_status, search_secret, find_secret, find_password, with_status,
  password_key,
}
use dbchan.Datastore.Reconcile.Evidence.{Gave, StatusClaim, Claim}

abbrev pub Claims : Trace → Type 0
Claims = Always Claim

pub Claims-IsStable : IsStable Claims
Claims-IsStable = record {
  on_got = λ k allowed key r t h. (tt, h);
  on_listed = λ k allowed r t h. (tt, h);
  on_opened = λ name source r t h. (tt, h);
  on_pinged = λ c r t h. (tt, h);
  on_closed = λ c t h. (tt, h);
  on_clock = λ now t h. (tt, h);
}

pub failed-ne-ready : ◌≢◌ {A = String} "Failed" "Ready"
failed-ne-ready = ground (arith, eq_iff "Failed" "Ready")

connecting-ne-ready : ◌≢◌ {A = String} "Connecting" "Ready"
connecting-ne-ready = ground (arith, eq_iff "Connecting" "Ready")

module _ (w : World) where
  pub save_status-Claims :
      (d : Datastore)
      → Triple (λ t. Claims t × StatusClaim d t) (save_status w d) (λ _. Claims) (λ _. Claims)
  unfolding save_status update_status
  save_status-Claims d = Triple-catch (Triple-ask _ _ go) (λ e. Triple-raise _ (λ t h. h))
    where
      go :
          (r : Result Error Datastore) (t : Trace)
          → Claims t × StatusClaim d t
          → Post (λ _. Claims) (λ _. Claims) (r, status_updated Kind.datastore d r ∷ t)
      go (ok a) t (h, why) = (why, h)
      go (err e) t (h, why) = (why, h)

  -- `park` never comes back.
  pub park_end :
      {A : Type 0} {Q : A → Trace → Type 0} (d : Datastore) (phase message : String) (o : Outcome)
      → phase ≢ "Ready"
      → Triple Claims (park w {A = A} d phase message o) Q (λ _. Claims)
  unfolding park
  park_end d phase message o ne =
      Triple-bind
        (Triple-weaken (save_status-Claims (with_status d phase false message))
          (λ t h. (h, (λ e. cc, λ e. absurd (ne e)))) (λ a t h. h) (λ e t h. h))
        (λ _. Triple-raise o (λ t h. h))

  pub init_status-Claims : (d : Datastore) → Keeps Claims (init_status w d)
  unfolding init_status
  init_status-Claims d =
      Keeps-if _ _ _
        (Triple-weaken (save_status-Claims _)
          (λ t h. (h, (λ e. cc, λ e. absurd (connecting-ne-ready e)))) (λ a t h. h) (λ e t h. h))
        (Keeps-pure d)

  -- The secret was given by the server.
  abbrev pub Given : Datastore → Secret → Trace → Type 0
  Given d s t = Claims t × Once (λ e _. Gave d s e) t

  search_secret-Given : (d : Datastore) → Triple Claims (search_secret w d) (Given d) (λ _. Claims)
  unfolding search_secret list on_none
  search_secret-Given d =
      Triple-bind
        {M = λ items t.
          Claims t
          × ((s : Secret)
              → find_by_name (λ x. x.name) d.spec.secret_ref.name items ≡ some s
              → Once (λ e _. Gave d s e) t)}
        (Triple-catch (Triple-ask _ _ go) (λ e. park_end d _ _ _ failed-ne-ready))
        (λ items. first (find_by_name (λ x. x.name) d.spec.secret_ref.name items))
    where
      go :
          (r : Result Error (List Secret)) (t : Trace)
          → Claims t
          → Post
              (λ items t.
                Claims t
                × ((s : Secret)
                    → find_by_name (λ x. x.name) d.spec.secret_ref.name items ≡ some s
                    → Once (λ e _. Gave d s e) t))
              (λ _. Claims)
              (r, listed Kind.secret r ∷ t)
      go (ok items) t h = ((tt, h), λ s e. inl e)
      go (err e) t h = (tt, h)

      first :
          (o : Option Secret)
          → Triple
              (λ t. Claims t × ((s : Secret) → o ≡ some s → Once (λ e _. Gave d s e) t))
              (on_none o (
                park w d "Failed"
                  ("Secret " <> d.spec.secret_ref.name <> " not found in any namespace")
                  retry_later))
              (Given d)
              (λ _. Claims)
      first none =
          Triple-weaken (park_end d _ _ _ failed-ne-ready) (λ t h. h.0) (λ a t h. h) (λ e t h. h)
      first (some s) = Triple-pure s (λ t h. (h.0, h.1 s refl))

  pub find_secret-Given :
      (key : ObjectKey) (d : Datastore)
      → Triple Claims (find_secret w key d) (Given d) (λ _. Claims)
  unfolding find_secret get
  find_secret-Given key d = Triple-catch (Triple-ask _ _ go) (λ e. fallback e e.not_found)
    where
      go :
          (r : Result Error Secret) (t : Trace)
          → Claims t
          → Post
              (Given d)
              (λ _. Claims)
              (
                r,
                got Kind.secret
                      (record { namespace = key.namespace; name = d.spec.secret_ref.name })
                      r
                    ∷ t,
              )
      go (ok s) t h = ((tt, h), inl (refl, refl))
      go (err e) t h = (tt, h)

      fallback :
          (e : Error) (b : Bool)
          → Triple Claims
              (if b
                then search_secret w d
                else park w d "Failed"
                    ("Secret " <> d.spec.secret_ref.name <> " not found")
                    retry_later)
              (Given d)
              (λ _. Claims)
      fallback e true = search_secret-Given d
      fallback e false = park_end d _ _ _ failed-ne-ready

  -- The password is the one of the secret.
  pub find_password-Given :
      (d : Datastore) (s : Secret)
      → Triple
          (Given d s)
          (find_password w d s)
          (λ p t. Given d s t × (lookup (password_key d) s.entries ≡ some p))
          (λ _. Claims)
  unfolding find_password on_none
  find_password-Given d s =
      Triple-on_none (lookup (password_key d) s.entries)
        (Triple-weaken (park_end d _ _ _ failed-ne-ready) (λ t h. h.0) (λ a t h. h) (λ e t h. h))

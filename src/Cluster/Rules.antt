-- ===== src/Cluster/Rules.antt =====
-- Rules for calls, for `Triple` and `Keeps`, and the predicates of a trace that no reading call and no
-- opening or closing of a connection can change.
use dbchan.Base.{◌≡◌, refl, Bool, true, ◌∷◌}
use dbchan.Base.Text.{String}
use dbchan.Base.Prog.{Result, ok, err}
use dbchan.Base.Prog.Triples.{Post, Triple, Keeps}
use dbchan.Api.{ObjectKey, Time}
use dbchan.Cluster.{
  Kind, Conn, Done, Event, Trace, World, got, listed, opened, pinged, closed, read_clock,
}
use dbchan.Cluster.Calls.{ask, get, list, open_pool, ping, close, now}

module _ {E A : Type 0} (answer : Trace → Result E A) (event : Result E A → Event) where
  pub Triple-ask :
      {P : Trace → Type 0} {Q : A → Trace → Type 0} {R : E → Trace → Type 0}
      → ((r : Result E A) (t : Trace) → P t → Post Q R (r, event r ∷ t))
      → Triple P (ask answer event) Q R
  unfolding ask
  Triple-ask h = record { at = λ t p. h (answer t) t p }

  -- What the world answered is known.
  pub Triple-ask_answer :
      {P : Trace → Type 0} {Q : A → Trace → Type 0} {R : E → Trace → Type 0}
      → ((r : Result E A) (t : Trace) → answer t ≡ r → P t → Post Q R (r, event r ∷ t))
      → Triple P (ask answer event) Q R
  unfolding ask
  Triple-ask_answer h = record { at = λ t p. h (answer t) t refl p }

  pub Keeps-ask :
      {P : Trace → Type 0}
      → ((r : Result E A) (t : Trace) → P t → P (event r ∷ t))
      → Keeps P (ask answer event)
  Keeps-ask {P} h = Triple-ask go
    where
      go : (r : Result E A) (t : Trace) → P t → Post (λ _. P) (λ _. P) (r, event r ∷ t)
      go (ok a) t p = h (ok a) t p
      go (err e) t p = h (err e) t p

-- Reading objects of the kinds `R`, and calls that open, check and close connections, keep `P`.
pub record IsStableOn (R : Kind → Bool) (P : Trace → Type 0) : Type 0 where
  pub on_got :
      (k : Kind) → R k ≡ true → (key : ObjectKey) (r : _) (t : Trace) → P t → P (got k key r ∷ t)
  pub on_listed : (k : Kind) → R k ≡ true → (r : _) (t : Trace) → P t → P (listed k r ∷ t)
  pub on_opened : (name source : String) (r : _) (t : Trace) → P t → P (opened name source r ∷ t)
  pub on_pinged : (c : Conn) (r : Done) (t : Trace) → P t → P (pinged c r ∷ t)
  pub on_closed : (c : Conn) (t : Trace) → P t → P (closed c ∷ t)
  pub on_clock : (now : Time) (t : Trace) → P t → P (read_clock now ∷ t)

abbrev pub every_kind : Kind → Bool
every_kind k = true

-- Reading calls, and calls that open, check and close connections, keep `P`.
abbrev pub IsStable : (Trace → Type 0) → Type 0
IsStable P = IsStableOn every_kind P

-- A predicate that lasts whatever happens.
pub IsStable-lasting :
    {P : Trace → Type 0} → ((e : Event) (t : Trace) → P t → P (e ∷ t)) → IsStable P
IsStable-lasting h = record {
  on_got = λ k allowed key r. h (got k key r);
  on_listed = λ k allowed r. h (listed k r);
  on_opened = λ name source r. h (opened name source r);
  on_pinged = λ c r. h (pinged c r);
  on_closed = λ c. h (closed c);
  on_clock = λ now. h (read_clock now);
}

module _ {R : Kind → Bool} {P : Trace → Type 0} (stable : IsStableOn R P) where
  pub Keeps-close : {E : Type 0} (c : Conn) → Keeps P (close {E = E} c)
  unfolding close
  Keeps-close c = record { at = stable.on_closed c }

module _ {R : Kind → Bool} {P : Trace → Type 0} (w : World) (stable : IsStableOn R P) where
  pub Keeps-get : (k : Kind) → R k ≡ true → (key : ObjectKey) → Keeps P (get w k key)
  unfolding get
  Keeps-get k allowed key = Keeps-ask _ _ (stable.on_got k allowed key)

  pub Keeps-list : (k : Kind) → R k ≡ true → Keeps P (list w k)
  unfolding list
  Keeps-list k allowed = Keeps-ask _ _ (stable.on_listed k allowed)

  pub Keeps-open_pool : (name source : String) → Keeps P (open_pool w name source)
  unfolding open_pool
  Keeps-open_pool name source = Keeps-ask _ _ (stable.on_opened name source)

  pub Keeps-ping : (c : Conn) → Keeps P (ping w c)
  unfolding ping
  Keeps-ping c = Keeps-ask _ _ (stable.on_pinged c)

  pub Keeps-now : {E : Type 0} → Keeps P (now w {E = E})
  unfolding now
  Keeps-now = record { at = λ t. stable.on_clock (w.now t) t }

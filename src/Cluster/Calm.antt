-- ===== src/Cluster/Calm.antt =====
-- A calm cluster: nobody else changes its objects, every write is stored, and every call to a database
-- succeeds. Reads may show the writes: a write of a kind of objects changes the objects of that kind
-- in any way, and no other.
use dbchan.Base.{ℕ, ◌≡◌, refl, sym, ◌∙◌, Bool, true, false, Option, some, List, ◌∷◌}
use dbchan.Base.Text.{String}
use dbchan.Base.Prog.{Error, Result, ok, err, catch}
use dbchan.Base.Prog.Triples.{Post, Triple, Triple-catch}
use dbchan.Base.Prog.Gives.{Gives, Ends, Gives-catch}
use dbchan.Api.{ObjectKey}
use dbchan.Cluster.{Kind, Object, Conn, Event, Trace, World, got, updated, status_updated}
use dbchan.Cluster.Calls.{
  Io, ask, get, update, update_status, open_pool, ping, exec, query_count, query_bool, now,
}
use dbchan.Cluster.History.{Newest}
use dbchan.Cluster.Rules.{Triple-ask_answer}

abbrev pub is_kind : Kind → Kind → Bool
is_kind Kind.secret Kind.secret = true
is_kind Kind.datastore Kind.datastore = true
is_kind Kind.database Kind.database = true
is_kind Kind.user Kind.user = true
is_kind Kind.role Kind.role = true
is_kind Kind.migration Kind.migration = true
is_kind _ _ = false

-- The call wrote an object of this kind.
abbrev pub writes : Event → Kind → Bool
writes (updated k o (ok a)) = is_kind k
writes (status_updated k o (ok a)) = is_kind k
writes _ = λ k. false

pub record Calm (w : World) : Type 0 where
  -- The objects after the calls of a trace.
  pub objects : Trace → (k : Kind) → ObjectKey → Option (Object k)
  pub gets :
      (k : Kind) (key : ObjectKey) (o : Object k) (t : Trace)
      → objects t k key ≡ some o
      → w.get k key t ≡ ok o
  pub rests :
      (e : Event) (t : Trace) (k : Kind) (key : ObjectKey)
      → writes e k ≡ false
      → objects (e ∷ t) k key ≡ objects t k key
  pub stores : (k : Kind) (o : Object k) (t : Trace) → w.update k o t ≡ ok o
  pub stores_status : (k : Kind) (o : Object k) (t : Trace) → w.update_status k o t ≡ ok o
  pub opens :
      (driver source : String) (t : Trace) → (c : Conn) × (w.open_pool driver source t ≡ ok c)
  pub pings : (c : Conn) (t : Trace) → w.ping c t ≡ ok tt
  pub executes :
      (c : Conn) (q : String) (args : List String) (t : Trace) → w.exec c q args t ≡ ok tt
  pub counts :
      (c : Conn) (q : String) (args : List String) (t : Trace)
      → (n : ℕ) × (w.query_count c q args t ≡ ok n)
  pub tests :
      (c : Conn) (q : String) (args : List String) (t : Trace)
      → (b : Bool) × (w.query_bool c q args t ≡ ok b)

-- Since the calls of `start`, the objects are the same, but for those of the kind `own`.
abbrev pub Rest : {w : World} → Calm w → Kind → Trace → Trace → Type 0
Rest calm own start t =
    (k : Kind)
    → is_kind own k ≡ false
    → (key : ObjectKey) → calm.objects t k key ≡ calm.objects start k key

-- The call writes no other kind of objects.
abbrev IsOwn : Kind → Event → Type 0
IsOwn own e = (k : Kind) → is_kind own k ≡ false → writes e k ≡ false

updated-IsOwn :
    (own : Kind) (o : Object own) (r : Result Error (Object own)) → IsOwn own (updated own o r)
updated-IsOwn own o (ok a) = λ k other. other
updated-IsOwn own o (err e) = λ k other. refl

status_updated-IsOwn :
    (own : Kind) (o : Object own) (r : Result Error (Object own))
    → IsOwn own (status_updated own o r)
status_updated-IsOwn own o (ok a) = λ k other. other
status_updated-IsOwn own o (err e) = λ k other. refl

module _ {w : World} (calm : Calm w) (own : Kind) (start : Trace) where
  abbrev Rests : Trace → Type 0
  Rests = Rest calm own start

  pub Rest-cons :
      (e : Event) (t : Trace)
      → ((k : Kind) → is_kind own k ≡ false → writes e k ≡ false)
      → Rests t
      → Rests (e ∷ t)
  Rest-cons e t quiet h k other key = calm.rests e t k key (quiet k other) ∙ h k other key

  -- A call that is always answered gives what it is answered with.
  Gives-ask :
      {A : Type 0} (answer : Trace → Result Error A) (event : Result Error A → Event)
      {Q : A → Type 0}
      → ((r : Result Error A) → IsOwn own (event r))
      → ((t : Trace) → Rests t → (a : A) × (answer t ≡ ok a) × Q a)
      → Gives Rests (ask answer event) Q
  Gives-ask {A} answer event {Q} quiet answers = Triple-ask_answer _ _ go
    where
      go :
          (r : Result Error A) (t : Trace)
          → answer t ≡ r
          → Rests t
          → Post (λ a s. Rests s × Q a) (λ e s. ⊥) (r, event r ∷ t)
      go (ok a) t e h =
          let (b, known, q) = answers t h in
          let same : a ≡ b = cc in (Rest-cons (event (ok a)) t (quiet (ok a)) h, rw same q)
      go (err x) t e h = let (b, known, q) = answers t h in cc

  pub Gives-get :
      (k : Kind)
      → is_kind own k ≡ false
      → (key : ObjectKey) (o : Object k) → calm.objects start k key ≡ some o
      → Gives Rests (get w k key) (λ a. a ≡ o)
  unfolding get
  Gives-get k other key o known =
      Gives-ask _ _ (λ r k' other'. refl)
        (λ t h. (o, calm.gets k key o t (h k other key ∙ known), refl))

  -- The object that the run is about, as its first call reads it.
  Gives-first :
      (key : ObjectKey) (o : Object own)
      → calm.objects start own key ≡ some o
      → Triple (λ t. t ≡ start) (get w own key) (λ a t. Rests t × (a ≡ o)) (λ e t. ⊥)
  unfolding get
  Gives-first key o known = Triple-ask_answer _ _ go
    where
      go :
          (r : Result Error (Object own)) (t : Trace)
          → w.get own key t ≡ r
          → t ≡ start
          → Post (λ a s. Rests s × (a ≡ o)) (λ e s. ⊥) (r, got own key r ∷ t)
      go (ok a) t e h =
          let there = calm.gets own key o start known in
          let same : a ≡ o = cc in
          let from : Rests t = rw h (λ k other key'. refl) in
          (Rest-cons _ t (λ k other. refl) from, same)
      go (err x) t e h = let there = calm.gets own key o start known in cc

  Gives-update : (o : Object own) → Gives Rests (update w own o) (λ a. a ≡ o)
  unfolding update
  Gives-update o = Gives-ask _ _ (updated-IsOwn own o) (λ t h. (o, calm.stores own o t, refl))

  Gives-update_status : (o : Object own) → Gives Rests (update_status w own o) (λ a. a ≡ o)
  unfolding update_status
  Gives-update_status o =
      Gives-ask _ _ (status_updated-IsOwn own o) (λ t h. (o, calm.stores_status own o t, refl))

  -- A write of a status is stored, and is the newest call.
  Triple-update_status :
      {P : Event → Type 0} (o : Object own)
      → P (status_updated own o (ok o))
      → Triple Rests (update_status w own o) (λ a t. (a ≡ o) × Newest P t) (λ e t. ⊥)
  unfolding update_status
  Triple-update_status {P} o p = Triple-ask_answer _ _ go
    where
      go :
          (r : Result Error (Object own)) (t : Trace)
          → w.update_status own o t ≡ r
          → Rests t
          → Post (λ a t. (a ≡ o) × Newest P t) (λ e t. ⊥) (r, status_updated own o r ∷ t)
      go (ok a) t e h =
          let stored = calm.stores_status own o t in
          let same : o ≡ a = cc in (sym same, rw (sym same) p)
      go (err x) t e h = let stored = calm.stores_status own o t in cc

  pub Ends-open_pool : (driver source : String) → Ends Rests (open_pool w driver source)
  unfolding open_pool
  Ends-open_pool driver source =
      Gives-ask _ _ (λ r k other. refl)
        (λ t h. let (c, e) = calm.opens driver source t in (c, e, tt))

  pub Ends-ping : (c : Conn) → Ends Rests (ping w c)
  unfolding ping
  Ends-ping c = Gives-ask _ _ (λ r k other. refl) (λ t h. (tt, calm.pings c t, tt))

  pub Ends-exec : (c : Conn) (q : String) (args : List String) → Ends Rests (exec w c q args)
  unfolding exec
  Ends-exec c q args = Gives-ask _ _ (λ r k other. refl) (λ t h. (tt, calm.executes c q args t, tt))

  pub Ends-query_count :
      (c : Conn) (q : String) (args : List String) → Ends Rests (query_count w c q args)
  unfolding query_count
  Ends-query_count c q args =
      Gives-ask _ _ (λ r k other. refl) (λ t h. let (n, e) = calm.counts c q args t in (n, e, tt))

  pub Ends-query_bool :
      (c : Conn) (q : String) (args : List String) → Ends Rests (query_bool w c q args)
  unfolding query_bool
  Ends-query_bool c q args =
      Gives-ask _ _ (λ r k other. refl) (λ t h. let (b, e) = calm.tests c q args t in (b, e, tt))

  pub Ends-now : {E : Type 0} → Ends Rests (now w {E = E})
  unfolding now
  Ends-now = record { at = λ t h. (Rest-cons _ t (λ k other. refl) h, tt) }

  -- The calls with their handling of errors.
  module _ {F : Type 0} (handle : Error → Io F (Object own)) where
    pub Gives-own :
        (key : ObjectKey) (o : Object own)
        → calm.objects start own key ≡ some o
        → Triple
            (λ t. t ≡ start)
            (catch (get w own key) handle)
            (λ a t. Rests t × (a ≡ o))
            (λ e t. ⊥)
    Gives-own key o known =
        Triple-catch (Gives-first key o known) (λ e. record { at = λ t x. absurd x })

    pub Gives-stored : (o : Object own) → Gives Rests (catch (update w own o) handle) (λ a. a ≡ o)
    Gives-stored o = Gives-catch handle (Gives-update o)

    pub Gives-stored_status :
        (o : Object own) → Gives Rests (catch (update_status w own o) handle) (λ a. a ≡ o)
    Gives-stored_status o = Gives-catch handle (Gives-update_status o)

    pub Triple-stored_status :
        {P : Event → Type 0} (o : Object own)
        → P (status_updated own o (ok o))
        → Triple Rests
            (catch (update_status w own o) handle)
            (λ a t. (a ≡ o) × Newest P t)
            (λ e t. ⊥)
    Triple-stored_status {P} o p =
        Triple-catch (Triple-update_status {P = P} o p) (λ e. record { at = λ t x. absurd x })

  pub Gives-found :
      (k : Kind)
      → is_kind own k ≡ false
      → {F : Type 0} (handle : Error → Io F (Object k)) (key : ObjectKey) (o : Object k)
      → calm.objects start k key ≡ some o
      → Gives Rests (catch (get w k key) handle) (λ a. a ≡ o)
  Gives-found k other handle key o known = Gives-catch handle (Gives-get k other key o known)

-- ===== src/Tests/Calm.antt =====
-- The small cluster is calm where its server stores every write, so that reads show it.
use dbchan.Base.{◌≡◌, refl, ap, Bool, ◌&&◌, true, false, Option, none, some, [], ◌∷◌, if◌then◌else◌}
use dbchan.Base.Text.{◌==◌}
use dbchan.Base.Prog.{Error, errorf, Result, ok, err}
use dbchan.Api.{ObjectMeta, ObjectKey, DatabaseRole, User}
use dbchan.Cluster.{Kind, Object, Event, Trace, World, updated, status_updated}
use dbchan.Cluster.Calm.{Calm, is_kind, writes}
use dbchan.Role.Reconcile.{role_finalizer}
use dbchan.Tests.{small_world, reader, key_of, answer, named, auditors}

abbrev found : {A : Type 0} → Result Error A → Option A
found (ok a) = some a
found (err e) = none

pub found-ok : {A : Type 0} (r : Result Error A) (a : A) → found r ≡ some a → r ≡ ok a
found-ok (ok b) a e = cc
found-ok (err x) a e = cc

abbrev Answers : Type 0
Answers = (k : Kind) → ObjectKey → Result Error (Object k)

abbrev is_at : ObjectMeta → ObjectKey → Bool
is_at m key = m.name == key.name && m.namespace == key.namespace

-- The object after a write of one of kind `j`.
abbrev put : (j k : Kind) → Object j → ObjectKey → Result Error (Object k) → Result Error (Object k)
put Kind.secret Kind.secret x key r = if is_at x.metadata key then ok x else r
put Kind.datastore Kind.datastore x key r = if is_at x.metadata key then ok x else r
put Kind.database Kind.database x key r = if is_at x.metadata key then ok x else r
put Kind.user Kind.user x key r = if is_at x.metadata key then ok x else r
put Kind.role Kind.role x key r = if is_at x.metadata key then ok x else r
put Kind.migration Kind.migration x key r = if is_at x.metadata key then ok x else r
put _ _ x key r = r

put-other :
    (j k : Kind) (x : Object j) (key : ObjectKey) (r : Result Error (Object k))
    → is_kind j k ≡ false
    → put j k x key r ≡ r
put-other Kind.secret Kind.secret x key r e = cc
put-other Kind.datastore Kind.datastore x key r e = cc
put-other Kind.database Kind.database x key r e = cc
put-other Kind.user Kind.user x key r e = cc
put-other Kind.role Kind.role x key r e = cc
put-other Kind.migration Kind.migration x key r e = cc
put-other _ _ x key r e = refl

abbrev after : Event → (k : Kind) → ObjectKey → Result Error (Object k) → Result Error (Object k)
after (updated j o (ok x)) k key r = put j k x key r
after (status_updated j o (ok x)) k key r = put j k x key r
after _ k key r = r

pub after-other :
    (e : Event) (k : Kind) (key : ObjectKey) (r : Result Error (Object k))
    → writes e k ≡ false
    → after e k key r ≡ r
after-other (updated j o (ok x)) k key r other = put-other j k x key r other
after-other (status_updated j o (ok x)) k key r other = put-other j k x key r other
after-other _ k key r other = refl

-- The server gives the objects as they were last written.
abbrev stored : Answers → Trace → Answers
stored answers [] k key = answers k key
stored answers (e ∷ t) k key = let before = stored answers t k key in after e k key before

abbrev pub world_of : Answers → World
world_of answers = record small_world { get = λ k key t. stored answers t k key }

abbrev pub calm_of : (answers : Answers) → Calm (world_of answers)
calm_of answers = record {
  objects = λ t k key. found (stored answers t k key);
  gets = λ k key o t known. found-ok (stored answers t k key) o known;
  rests = λ e t k key other. ap found (after-other e k key (stored answers t k key) other);
  stores = λ k o t. refl;
  stores_status = λ k o t. refl;
  opens = λ driver source t. (record { id = 7 }, refl);
  pings = λ c t. refl;
  executes = λ c q args t. refl;
  counts = λ c q args t. (0, refl);
  tests = λ c q args t. (false, refl);
}

-- A role that has its finalizer.
abbrev pub kept_auditors : DatabaseRole
kept_auditors = record auditors {
  metadata = record (named "auditors") { finalizers = role_finalizer ∷ [] };
}

abbrev pub kept_answer : Answers
kept_answer Kind.role = λ key. if key.name == "auditors" then ok kept_auditors else err (errorf "")
kept_answer k = answer k

abbrev made_reader : User
made_reader = record reader { status = record reader.status { phase = "Ready"; ready = true } }

-- A read gives the status that was written before it.
reads_written :
    (world_of answer).get Kind.user
      (key_of "reader")
      (status_updated Kind.user made_reader (ok made_reader) ∷ [])
    ≡ ok made_reader
reads_written = refl

-- ===== src/User/Evidence/Created.antt =====
-- `createOrUpdateUser` succeeds only if the account was given its password and privileges.
use dbchan.Base.{refl}
use dbchan.Base.{arith, ◌≡◌, false, ltb, length, Option, none, some, List, [], ◌∷◌}
use dbchan.Base.Text.{String}
use dbchan.Base.Prog.{Error, ok, when}
use dbchan.Base.Prog.{Prog}
use dbchan.Base.Prog.Triples.{
  Triple, Triple-bind, Triple-pure, Triple-when, Triple-raise, Triple-catch, Triple-weaken,
  Triple-wrap, Triple-assume, Triple-lift, Keeps, keeps_rules,
}
use dbchan.Api.{User, Datastore, Database}
use dbchan.Cluster.{Conn, Trace, World, executed}
use dbchan.Cluster.Calls.{exec}
use dbchan.Cluster.Rules.{Keeps-ask}
use dbchan.Cluster.Statements.{AllRan, AllRan-cons, Triple-exec-Ran}
use dbchan.Connection.{Dialect, mysql, postgres, sqlserver, unsupported}
use dbchan.Connection.Rules.{Keeps-connect_to_datastore, Triple-defer_close}
use dbchan.User.Statements.{
  grant_each, grant_mysql_role, create_or_update_mysql_user, create_or_update_postgre_sql_user,
  create_in_database, create_or_update_sql_server_user,
}
use dbchan.User.Account.{create_as, create_on, create_or_update_user}
use dbchan.User.Evidence.{
  SetsPassword, mysql_new, postgres_new, postgres_again, sqlserver_new, sqlserver_again,
  HasPassword, HasPrivileges, IsNamed,
}
use dbchan.User.Evidence.Lasting.{
  Claims, Claims-IsStable, grants-AllRan, Created, HasPassword-cons, IsCreated-cons,
}

module _ (w : World) where
  module _ (u : User) where
    module _ (k : Dialect) where
      -- The password is set.
      abbrev Given : Trace → Type 0
      Given t = Claims w t × HasPassword w u k t

      Given-executed :
          (c : Conn) (q : String) (args : _) (r : _) (t : Trace)
          → Given t
          → Given (executed c q args r ∷ t)
      Given-executed c q args r t h = ((tt, h.0), HasPassword-cons w u _ t h.1)

      exec-Given : (c : Conn) (q : String) (args : List String) → Keeps Given (exec w c q args)
      unfolding exec
      exec-Given c q args = Keeps-ask _ _ (λ r. Given-executed c q args r)

      -- The privileges are granted too.
      abbrev Granted : (String → String) → Trace → Type 0
      Granted statement t = Given t × AllRan statement u.spec.privileges t

      exec-Granted :
          (statement : String → String) (c : Conn) (q : String) (args : List String)
          → Keeps (Granted statement) (exec w c q args)
      unfolding exec
      exec-Granted statement c q args = Keeps-ask _ _ λ r t h.
          (Given-executed c q args r t h.0, AllRan-cons statement u.spec.privileges _ t h.1)

      grant_each-Granted :
          (c : Conn) (statement : String → String)
          → Triple Given (grant_each w c statement u) (λ _. Granted statement) (λ _. Given)
      unfolding grant_each
      grant_each-Granted c statement = grants-AllRan w c statement u.spec.privileges Given-executed

      grant_any-Granted :
          (c : Conn) (statement : String → String)
          → Triple Given
              (when (ltb 0 (length u.spec.privileges)) (grant_each w c statement u))
              (λ _. Granted statement)
              (λ _. Given)
      grant_any-Granted c statement =
          Triple-when _ (λ some_left. grant_each-Granted c statement)
            (λ none_left t h. (h, nothing u.spec.privileges none_left t))
        where
          nothing :
              (ps : List String) → ltb 0 (length ps) ≡ false → (t : Trace) → AllRan statement ps t
          nothing [] e t = tt
          nothing (p ∷ ps) e t = absurd (ground arith)

      grant_mysql_role-Granted :
          (statement : String → String) (c : Conn) (role : String)
          → Keeps (Granted statement) (grant_mysql_role w c u role)
      unfolding grant_mysql_role
      grant_mysql_role-Granted statement c role =
          search (keeps_rules, exec-Granted statement) depth 12

      -- The end of a run that granted the privileges.
      done :
          (d : Option Database) {A : Type 0} {P : Trace → Type 0} {m : Prog Trace Error A}
          → IsNamed u.spec.database_ref d
          → Triple Given m (λ _. P) (λ _. Given)
          → ((t : Trace) → P t → Given t × HasPrivileges k d u.spec t)
          → Triple Given m (λ _. Created w u) (λ _. Claims w)
      done d named m why =
          Triple-weaken m (λ t h. h)
            (λ a t h. (
              (why t h).0.0,
              record {
                protected = (why t h).0.1;
                kind = k;
                database = d;
                named = named;
                privileged = (why t h).1;
              },
            ))
            (λ e t h. h.0)

      -- The statements after the grants.
      rest-Granted :
          (statement : String → String) {A : Type 0} {m : Prog Trace Error A}
          → Keeps (Granted statement) m
          → Triple (Granted statement) m (λ _. Granted statement) (λ _. Given)
      rest-Granted statement k = Triple-weaken k (λ t h. h) (λ a t h. h) (λ e t h. h.0)

    create_in_database-Created :
        (c : Conn) (d : Option Database)
        → IsNamed u.spec.database_ref d
        → Triple (Given sqlserver) (create_in_database w c u d) (λ _. Created w u) (λ _. Claims w)
    unfolding create_in_database
    create_in_database-Created c none named =
        done sqlserver none {P = Given sqlserver} named (Triple-pure tt (λ t h. h)) (λ t h. (h, tt))
    create_in_database-Created c (some d) named =
        done sqlserver (some d) named
          (Triple-bind (search (keeps_rules, exec-Given sqlserver) depth 12)
            (λ _. grant_each-Granted sqlserver c _))
          (λ t h. h)

    module _ (password : String) (decoded : w.decode_base64 u.spec.password ≡ ok password) where
      first-Given :
          (k : Dialect) (c : Conn) (q : String)
          → SetsPassword u.spec password k q
          → Triple (Claims w) (exec w c q []) (λ _. Given k) (λ _. Claims w)
      first-Given k c q sets =
          Triple-weaken (Triple-exec-Ran w (λ c' q' args r t h. (tt, h)) c q) (λ t h. h)
            (λ a t h. (
              h.0,
              record {
                password = password;
                decoded = decoded;
                statement = q;
                sets = sets;
                ran = h.1;
              },
            ))
            (λ e t h. h)

      create_as-Created :
          (c : Conn) (k : Dialect) (ty : String) (d : Option Database)
          → IsNamed u.spec.database_ref d
          → Triple (Claims w) (create_as w c k ty u password d) (λ _. Created w u) (λ _. Claims w)
      unfolding create_as create_or_update_mysql_user create_or_update_postgre_sql_user
          create_or_update_sql_server_user
      create_as-Created c mysql ty d named =
          Triple-bind (Triple-wrap _ (first-Given mysql c _ mysql_new)) λ _.
            done mysql d named
              (Triple-bind (grant_any-Granted mysql c _) λ _. rest-Granted mysql _ (
                search (keeps_rules, exec-Granted mysql _, grant_mysql_role-Granted mysql _) depth
                  12))
              (λ t h. h)
      create_as-Created c postgres ty d named =
          Triple-bind
            (Triple-catch (first-Given postgres c _ postgres_new)
              (λ e. Triple-wrap _ (first-Given postgres c _ postgres_again)))
            λ _.
              done postgres d named
                (Triple-bind (grant_each-Granted postgres c _) λ _.
                  rest-Granted postgres _ (search (keeps_rules, exec-Granted postgres _) depth 12))
                (λ t h. h)
      create_as-Created c sqlserver ty d named =
          Triple-bind
            (Triple-catch (first-Given sqlserver c _ sqlserver_new)
              (λ e. Triple-wrap _ (first-Given sqlserver c _ sqlserver_again)))
            λ _. create_in_database-Created c d named
      create_as-Created c unsupported ty d named = Triple-raise _ (λ t h. h)

    create_on-Created :
        (c : Conn) (ty : String) (d : Option Database)
        → IsNamed u.spec.database_ref d
        → Triple (Claims w) (create_on w c ty u d) (λ _. Created w u) (λ _. Claims w)
    unfolding create_on
    create_on-Created c ty d named =
        Triple-bind (Triple-wrap _ (Triple-lift _))
          λ password. Triple-assume λ decoded. create_as-Created password decoded c _ ty d named

    -- Success of `createOrUpdateUser`.
    pub create_or_update_user-Created :
        (datastore : Datastore) (d : Option Database)
        → IsNamed u.spec.database_ref d
        → Triple
            (Claims w)
            (create_or_update_user w u datastore d)
            (λ _. Created w u)
            (λ _. Claims w)
    unfolding create_or_update_user
    create_or_update_user-Created datastore d named =
        Triple-bind (Keeps-connect_to_datastore w (Claims-IsStable w) refl datastore) λ c.
          Triple-defer_close c (λ a t h. ((tt, h.0), IsCreated-cons w u _ t h.1)) (λ e t h. (tt, h))
            (create_on-Created c _ d named)

-- ===== src/CreatorDecisions/Decided.antt =====
-- A request is decided once, by an active administrator, and the decision is recorded.
use kelolakelas_identity_ser.Base.{
  Within-update, inl, inr, ap, sym, ℕ, ◌≡◌, ◌≢◌, refl, String, ◌==◌, nat_eq, string_eq, text_eq,
  nat_beq, eq_iff, Bool, true, false, Option, none, some, List, [], ◌∷◌, arith, Text, All,
  All-Within, update, Within, Within-append_last, first_holds, first-Within,
}
use mathlib.Core.Path.{subst}
use kelolakelas_identity_ser.Schema.{Time, Uuid, Db, User, CreatorRequest}
use kelolakelas_identity_ser.Sql.{Env, State, ok, tick}
use kelolakelas_identity_ser.Sql.Rules.{
  Ensures, Ensures-pure, Ensures-transaction, Ensures-ok, Ensures-bind, Ensures-weaken, bind_query,
  bind_required, bind_guard, bind_ask, bind_insert, bind_execute,
}
use kelolakelas_identity_ser.Emails.{trim_space}
use kelolakelas_identity_ser.Invitations.{add_invitation}
use kelolakelas_identity_ser.CreatorRequests.{is_empty}
use kelolakelas_identity_ser.CreatorDecisions.Granted.{Granted, grant_creator_keeps}
use kelolakelas_identity_ser.CreatorDecisions.{
  request_by_id, is_platform_admin, approve, reject, save_request, audit_row, add_audit,
  settle_request, decide,
}

-- The status that a decision sets.
abbrev pub outcome : Bool → String
outcome true = "approved"
outcome false = "rejected"

-- No stored request with this id is pending.
abbrev Closed : Uuid → Db → Type 0
Closed id d =
    All (λ (q : CreatorRequest). nat_beq q.id id ≡ true → (q.status == "pending") ≡ false)
      d.creator_requests

-- The reason that a rejection stores.
abbrev pub Reasoned : Env → Bool → Text → CreatorRequest → Type 0
Reasoned env approval reason q =
    approval ≡ false
    → (q.rejection_reason ≡ some (trim_space env reason)) × (trim_space env reason ≢ [])

-- What a decision has settled before it is saved.
abbrev Settled : Env → CreatorRequest → Bool → Text → State → CreatorRequest → State → Type 0
Settled env r approval reason s q s' =
    (q.id ≡ r.id)
    × (q.status ≡ outcome approval)
    × (s'.db.creator_requests ≡ s.db.creator_requests)
    × Reasoned env approval reason q
    × (approval ≡ true → Granted r q s.db s'.db)

save-Closed :
    (id : Uuid) (q : CreatorRequest) (xs : List CreatorRequest)
    → (q.status == "pending") ≡ false
    → q.id ≡ id
    → All
        (λ (r : CreatorRequest). nat_beq r.id id ≡ true → (r.status == "pending") ≡ false)
        (update (λ r. r.id == q.id) (λ r. q) xs)
unfolding update
save-Closed id q [] h e = tt
save-Closed id q (x ∷ xs) h e = ((λ k. ground (arith, h)), save-Closed id q xs h e)

nonempty : (t : Text) → is_empty t ≡ false → t ≢ []
nonempty [] h e = cc
nonempty (c ∷ t) h e = cc

module _ (env : Env) (s : State) (r : CreatorRequest) where
  approve-Settled :
      (now : Time) (reason : Text) (o : Option User)
      → Ensures env s (approve r now o) (Settled env r true reason s)
  unfolding approve add_invitation
  approve-Settled now reason (some u) = bind_guard _ _ _ λ a. bind_guard _ _ _ λ b. bind_query _ _ (
      bind_required _ _ _ λ role e. bind_query _ _ (
        Ensures-bind _ _ (
          Ensures-weaken env _ _ _ _ (grant_creator_keeps env _ r u.id role _ refl)
            λ _ s' (same, m, w, t, o, p, a, d). Ensures-pure _ (
              refl,
              refl,
              same,
              (λ k. cc),
              λ k. record {
                role = role;
                creator = e;
                given = inl (m, w, t, ap some (sym o), p, a, d);
              },
            ))))
  approve-Settled now reason none = bind_guard _ _ _ λ a. bind_query _ _ (
      bind_required _ _ _ λ role e. bind_ask _ _ (
        bind_ask _ _ (
          bind_insert _ _ _ λ c. Ensures-pure _ (
            refl,
            refl,
            refl,
            (λ k. cc),
            λ k. record {
              role = role;
              creator = e;
              given =
                  inr
                    (_, Within-append_last s.db.tenant_invitations _, refl, refl, refl, refl, refl);
            },
          ))))

module _ (env : Env) (s : State) (r : CreatorRequest) where
  settle_request-Settled :
      (size : Text → ℕ) (now : Time) (approval : Bool) (reason : Text)
      → Ensures env s (settle_request size r now approval reason) (Settled env r approval reason s)
  unfolding settle_request reject
  settle_request-Settled size now true reason =
      bind_ask _ _ (bind_query _ _ (approve-Settled env (tick (tick s)) r now reason _))
  settle_request-Settled size now false reason = bind_ask _ _ (
      bind_guard _ _ _ λ some_reason.
        Ensures-pure _ (refl, refl, refl, (λ k. (refl, nonempty _ (ground arith))), λ k. cc))

-- What a decision leaves.
pub record Decision (env : Env) (request_id actor_id : Uuid) (approval : Bool) (text : Text)
    (q : CreatorRequest) (before after : Db) : Type 0 where
  pub admin : is_platform_admin actor_id before ≡ true
  pub request : CreatorRequest
  pub stored : Within request before.creator_requests
  pub pending : request.status ≡ "pending"
  pub same : (request.id ≡ request_id) × (q.id ≡ request_id)
  pub status : q.status ≡ outcome approval
  pub actor : q.decided_by ≡ some actor_id
  pub reason : Reasoned env approval text q
  pub granted : approval ≡ true → Granted request q before after
  pub saved : Within q after.creator_requests
  pub audit :
      (id : Uuid) × (now : Time) × Within (audit_row id q actor_id now) after.creator_request_audit
  pub closed : Closed request_id after

outcome-decided :
    (approval : Bool) (status : String) → status ≡ outcome approval → (status == "pending") ≡ false
outcome-decided true status e = rw e refl
outcome-decided false status e = rw e refl

module _ (size : Text → ℕ) (request_id actor_id : Uuid) (approval : Bool) (reason : Text)
    (env : Env) (s : State) (q : CreatorRequest) where
  pub decide-Decision :
      (decide size request_id actor_id approval reason env s).0 ≡ ok q
      → Decision env request_id actor_id approval reason q s.db
          (decide size request_id actor_id approval reason env s).1.db
  unfolding decide save_request add_audit request_by_id
  decide-Decision h =
      Ensures-ok env s (decide size request_id actor_id approval reason)
        (λ q s'. Decision env request_id actor_id approval reason q s.db s'.db) q h
        (Ensures-transaction _ (
          bind_query _ _ (
            bind_guard _ _ _ λ admin. bind_query _ _ (
              bind_required _ _ _ λ r found. bind_guard _ _ _ λ pending. bind_query _ _ (
                bind_required _ _ _ λ tenant live. bind_ask _ _ (
                  Ensures-bind _ _ (
                    Ensures-weaken env _ _ _ _
                      (settle_request-Settled env _ r size _ approval reason)
                      λ r' s1 settled. bind_execute _ _ (
                        bind_ask _ _ (
                          bind_insert _ _ _ λ fresh. Ensures-pure _ record {
                            admin = admin;
                            request = r;
                            stored =
                                first-Within (λ (r : CreatorRequest). r.id)
                                  (λ r. r.id == request_id) s.db.creator_requests r found;
                            pending = ground (arith, eq_iff r.status "pending");
                            same = (
                              ground (
                                arith,
                                first_holds (λ (r : CreatorRequest). r.id) (λ r. r.id == request_id)
                                    s.db.creator_requests r found,
                              ),
                              ground (
                                arith,
                                settled.0,
                                first_holds (λ (r : CreatorRequest). r.id) (λ r. r.id == request_id)
                                    s.db.creator_requests r found,
                              ),
                            );
                            status = settled.1;
                            actor = refl;
                            reason = settled.3;
                            granted = λ k.
                                let g = settled.4 k in
                                record { role = g.role; creator = g.creator; given = g.given };
                            saved =
                                Within-update (λ x. x.id == r'.id) _ s1.db.creator_requests r
                                  (subst (Within r) (sym settled.2) (
                                    first-Within (λ (r : CreatorRequest). r.id)
                                      (λ r. r.id == request_id) s.db.creator_requests r found))
                                  (ground (arith, settled.0));
                            audit = (_, _, Within-append_last s1.db.creator_request_audit _);
                            closed =
                                save-Closed request_id _ s1.db.creator_requests
                                  (outcome-decided approval r'.status settled.1)
                                  (ground (
                                    arith,
                                    settled.0,
                                    first_holds (λ (r : CreatorRequest). r.id)
                                        (λ r. r.id == request_id) s.db.creator_requests r found,
                                  ));
                          })))))))))

  Closed-decide :
      Closed request_id s.db → (decide size request_id actor_id approval reason env s).0 ≢ ok q
  unfolding decide request_by_id
  Closed-decide closed h =
      Ensures-ok env s (decide size request_id actor_id approval reason) (λ _ _. ⊥) q h
        (Ensures-transaction _ (
          bind_query _ _ (
            bind_guard _ _ _ λ admin. bind_query _ _ (
              bind_required _ _ _ λ r found. bind_guard _ _ _ λ pending. ground (
                arith,
                All-Within _ s.db.creator_requests r closed (
                    first-Within (λ (r : CreatorRequest). r.id) (λ r. r.id == request_id)
                      s.db.creator_requests r found),
                first_holds (λ (r : CreatorRequest). r.id) (λ r. r.id == request_id)
                    s.db.creator_requests r found,
              )))))

-- A request is decided at most once: after a decision no other succeeds on the tables that it
-- left, by any actor, for or against.
pub decide_once :
    (size : Text → ℕ) (id actor other : Uuid) (a b : Bool) (reason reason' : Text) (env env' : Env)
    (s : State) (q p : CreatorRequest)
    → (decide size id actor a reason env s).0 ≡ ok q
    → (decide size id other b reason' env' (decide size id actor a reason env s).1).0 ≢ ok p
decide_once size id actor other a b reason reason' env env' s q p h =
    Closed-decide size id other b reason' env' _ p
      (decide-Decision size id actor a reason env s q h).closed

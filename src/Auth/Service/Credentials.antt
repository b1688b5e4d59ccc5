-- ===== src/Auth/Service/Credentials.antt =====
-- SignUp and Login of backend/internal/auth/service.go.
use smusic.Prelude.{
  find, Bool-cases, refl, ◌∙◌, ap, sym, suc, ℕ, String, ◌≡◌, ◌≢◌, Bool, true, false, not, ◌||◌, ltb,
  Option, none, some, List, [], ◌∷◌, ◌++◌, arith, str_eq, any, Option-cases, inl, inr, eq_refl,
  eq_iff,
}
use Prim.Native.String.{len}
use smusic.Auth.Domain.{
  Error, context, role_user, User, LoginInput, SignUpInput, World, AuthResult, Deps, DeviceInput,
  invalid_credentials, user_status_active,
}
use smusic.Effect.{Outcome, guard-eq-ok, >>=-eq-ok, Env, State, err, ◌>>=◌, state_of, world_of}
use smusic.Auth.Repo
use smusic.Auth.Service
use smusic.Auth.Service.{bump, ok, login, sign_up, issue_session, normalize_email}

abbrev pub user_by_email : String → List User → Option User
user_by_email email = find (λ u. str_eq u.email email)

-- Why a login is turned away: no such user, a user that is not active or has no password, or another
-- password.
unfoldable pub is_refused : (String → Option Bool) → Option User → Bool
is_refused verify none = true
is_refused verify (some u) =
    not (str_eq u.status user_status_active)
    || str_eq u.password_hash ""
    || elim (verify u.password_hash) [ none ↦ false | some matches ↦ not matches ]

not_empty : (password : String) → ltb (len password) 8 ≡ false → str_eq password "" ≡ false
not_empty password long = elim (Bool-cases (str_eq password "")) [
  | inl e ↦ ground (arith, ap (λ p. ltb (len p) 8) ((eq_iff password "").0 e))
  | inr e ↦ e
]

module _ (env : Env) (deps : Deps) where
  -- Whatever the reason for which a login is turned away, no such user, an inactive one, one
  -- without a password or a password that does not match, its answer is the same error and nothing
  -- is written, if no interaction fails and neither the email nor the password is empty.
  pub login-is_refused :
      (in_ : LoginInput) (s : State World)
      → ((n : ℕ) → env.fault n ≡ false)
      → normalize_email env deps in_.email ≢ ""
      → in_.password ≢ ""
      → is_refused
          (deps.verify_password (suc s.tick) in_.password)
          (user_by_email (normalize_email env deps in_.email) s.world.users)
        ≡ true
      → (login env deps in_ s ≡ err invalid_credentials (state_of (login env deps in_ s)))
        × (world_of (login env deps in_ s) ≡ s.world)
  unfolding login is_refused Repo.get_by_email Service.ask ◌>>=◌
  login-is_refused in_ s up email password refused =
      elim (Option-cases (user_by_email (normalize_email env deps in_.email) s.world.users)) [
        | inl e ↦ ground (
          arith,
          up s.tick,
          eq_iff (normalize_email env deps in_.email) "",
          eq_iff in_.password "",
        )
        | inr (u, e) ↦ ground (
          arith,
          up s.tick,
          eq_iff (normalize_email env deps in_.email) "",
          eq_iff in_.password "",
        )
      ]

  find-append_new :
      (u : User) (users : List User)
      → any (λ v. str_eq v.id u.id || str_eq v.email u.email) users ≡ false
      → user_by_email u.email (users ++ u ∷ []) ≡ some u
  find-append_new u [] h = ground (arith, eq_refl u.email)
  find-append_new u (v ∷ users) h = ground (arith, find-append_new u users)

  users-issue_session :
      (user_id : String) (device : Option DeviceInput) (s : State World)
      → (world_of (issue_session env deps user_id device s)).users ≡ s.world.users
  unfolding issue_session Service.upsert_device Service.issue_tokens Service.store_refresh_token
      Service.ask Repo.upsert Repo.store_token ◌>>=◌
  users-issue_session user_id none s = ground arith
  users-issue_session user_id (some d) s = ground arith

  -- The user that a sign-up stores.
  pub record SignedUp (in_ : SignUpInput) (s : State World) (r : AuthResult) (users : List User)
      : Type 0 where
    pub user : User
    pub hashed : deps.hash_password s.tick in_.password ≡ some user.password_hash
    pub active : user.status ≡ user_status_active
    pub email : user.email ≡ normalize_email env deps in_.email
    pub required : str_eq user.email "" ≡ false
    pub long : ltb (len in_.password) 8 ≡ false
    pub stored : user_by_email user.email users ≡ some user
    pub id : r.user_id ≡ user.id

  subject-issue_session :
      (user_id : String) (device : Option DeviceInput) (s t : State World) (r : AuthResult)
      → issue_session env deps user_id device s ≡ ok r t
      → r.user_id ≡ user_id
  unfolding issue_session Service.issue_tokens Service.store_refresh_token
  subject-issue_session user_id device s t r h =
      let (d, s1, e1, h1) = >>=-eq-ok _ _ s h in
      let (i, s2, e2, h2) = >>=-eq-ok _ _ s1 h1 in
      unfold ◌>>=◌ Service.ask Repo.store_token in ground arith

  ask-eq-ok :
      {A : Type 0} (text : String) (f : ℕ → Option A) (s t : State World) (a : A)
      → Service.ask env deps text f s ≡ ok a t
      → (f s.tick ≡ some a) × (bump s ≡ t)
  unfolding Service.ask
  ask-eq-ok text f s t a h = ground arith

  create-eq-ok :
      (text : String) (u : User) (s t : State World)
      → context text (Repo.create env u) s ≡ ok tt t
      → (any (λ v. str_eq v.id u.id || str_eq v.email u.email) s.world.users ≡ false)
        × (t.world.users ≡ s.world.users ++ u ∷ [])
  unfolding Repo.create ◌>>=◌
  create-eq-ok text u s t h = ground arith

  not-eq-true : (b : Bool) → not b ≡ true → b ≡ false
  not-eq-true b h = ground arith

  sign_up-SignedUp :
      (in_ : SignUpInput) (s t : State World) (r : AuthResult)
      → sign_up env deps in_ s ≡ ok r t
      → SignedUp in_ s r t.world.users
  unfolding sign_up
  sign_up-SignedUp in_ s t r h =
      let (x1, s1, e1, h1) = >>=-eq-ok _ _ s h in
      let (b1, w1) = guard-eq-ok _ _ s e1 in
      let (x2, s2, e2, h2) = >>=-eq-ok _ _ s1 h1 in
      let (b2, w2) = guard-eq-ok _ _ s1 e2 in
      let (x3, s3, e3, h3) = >>=-eq-ok _ _ s2 h2 in
      let (b3, w3) = guard-eq-ok _ _ s2 e3 in
      let (hash, s4, e4, h4) = >>=-eq-ok _ _ s3 h3 in
      let (a4, w4) = ask-eq-ok _ _ s3 s4 hash e4 in
      let (time, s5, e5, h5) = >>=-eq-ok _ _ s4 h4 in
      let (id, s6, e6, h6) = >>=-eq-ok _ _ s5 h5 in
      let (x7, s7, e7, h7) = >>=-eq-ok _ _ s6 h6 in
      let same : s ≡ s3 = w1 ∙ w2 ∙ w3 in
      let (fresh, users) = create-eq-ok _ _ s6 s7 e7 in
      let kept : t.world.users ≡ s7.world.users =
        sym (ap (λ (o : Outcome World Error AuthResult). (world_of o).users) h7)
        ∙ users-issue_session id in_.device s7 in
      record {
        user = record {
          id = id;
          email = normalize_email env deps in_.email;
          password_hash = hash;
          display_name = deps.trim_space in_.display_name;
          handle = "";
          status = user_status_active;
          role = role_user;
          created_at = time;
          updated_at = time;
        };
        hashed = ap (λ (v : State World). deps.hash_password v.tick in_.password) same ∙ a4;
        active = refl;
        email = refl;
        required = not-eq-true _ b1;
        long = not-eq-true _ b2;
        stored =
            ap (user_by_email (normalize_email env deps in_.email)) (kept ∙ users)
            ∙ find-append_new _ s6.world.users fresh;
        id = subject-issue_session id in_.device s7 t r h7;
      }

  -- After a sign-up that succeeded, a login with the same email and password gets past every test and
  -- goes on to issue a session for the same user, if no interaction fails and passwords verify against
  -- their own hashes, which are not empty.
  pub sign_up-login :
      (in_ : SignUpInput) (device : Option DeviceInput) (s t : State World) (r : AuthResult)
      → ((n : ℕ) → env.fault n ≡ false)
      → ((m n : ℕ) (password hash : String)
          → deps.hash_password m password ≡ some hash
          → (deps.verify_password n password hash ≡ some true) × (hash ≢ ""))
      → sign_up env deps in_ s ≡ ok r t
      → login env deps (record { email = in_.email; password = in_.password; device = device }) t
        ≡ issue_session env deps r.user_id device (bump (bump t))
  unfolding login Repo.get_by_email Service.ask ◌>>=◌
  sign_up-login in_ device s t r up verifies h =
      let made = sign_up-SignedUp in_ s t r h in
      let (matches, full) =
        verifies s.tick (suc t.tick) in_.password made.user.password_hash made.hashed in
      ground (
        arith,
        up t.tick,
        made.active,
        made.email,
        made.required,
        made.stored,
        made.id,
        not_empty in_.password made.long,
        eq_iff made.user.password_hash "",
        (eq_iff made.user.status user_status_active).1 made.active,
        matches,
        full,
      )

-- ===== src/Handler/Propagation.antt =====
-- What becomes of the later commands of a compound request when one fails.
use rustsmb.Base.{
  ℕ, ◌+◌, ◌-◌, ◌^◌, ◌≤◌, ◌≡◌, refl, ap, ◌∙◌, true, false, Option, none, some, List, [], ◌∷◌, nat_eq,
  if◌then◌else◌, arith,
}
use rustsmb.Core.Action.{Result, ok, err, Action, pure, proceed, ◌>>=◌}
use rustsmb.Compound.{
  CompoundContext, advance, failure, related, is_first, resolve_session_id, resolve_tree_id,
}
use rustsmb.Handler.{
  Smb2Header, HandlerError, status_error, invalid_parameter, error_status, ConnectionHandler,
  Services, Round, resolve_related_header, take_credits, build_error_response_with_ids, refuse,
  run_command, serve, take_command, process_commands,
}

module _ {S E A B R : Type 0} where
  proceed_bound :
      (f : A → R) (k : R → Action S E B) (r : Result E A) (s : S)
      → (λ (b : Result E R × S). proceed b.0 k b.1) (proceed r (λ a. pure (f a)) s)
        ≡ proceed r (λ a. k (f a)) s
  proceed_bound f k (ok a) s = refl
  proceed_bound f k (err e) s = refl

  bind_bound :
      (m : Action S E A) (f : A → R) (k : R → Action S E B) (s : S)
      → ((m >>= λ a. pure (f a)) >>= k) s ≡ (m >>= λ a. k (f a)) s
  bind_bound m f k s = proceed_bound f k (m s).0 (m s).1

module _ {S E A B : Type 0} where
  proceed_ext :
      (k l : A → Action S E B) (r : Result E A) (s : S)
      → ((a : A) → k a s ≡ l a s)
      → proceed r k s ≡ proceed r l s
  proceed_ext k l (ok a) s same = same a
  proceed_ext k l (err e) s same = refl

  proceed_still :
      (k : A → Action S E B) (r : Result E A) (s' s : S)
      → s' ≡ s
      → ((a : A) → (k a s).1 ≡ s)
      → (proceed r k s').1 ≡ s
  proceed_still k (ok a) s' s e still = ap (λ t. (k a t).1) e ∙ still a
  proceed_still k (err x) s' s e still = e

-- The sentinel `missing` stands for what the earlier commands named.
abbrev pub named : ℕ → ℕ → ℕ → ℕ
named missing known asked = if nat_eq asked missing then known else asked

-- A context that knows a session and a tree, after the first command.
pub record IsLater (session tree : ℕ) (c : CompoundContext) : Type 0 where
  pub is_related : c.is_related ≡ true
  pub session_known : c.session_id ≡ some session
  pub tree_known : c.tree_id ≡ some tree
  pub started : 1 ≤ c.current_index

advance-IsLater :
    (session tree code : ℕ) (c : CompoundContext)
    → IsLater session tree c
    → IsLater session tree (advance c (failure code))
unfolding advance
advance-IsLater session tree code c h = record {
  is_related = h.is_related;
  session_known = h.session_known;
  tree_known = h.tree_known;
  started = omega arith;
}

abbrev resolved : ℕ → ℕ → Smb2Header → Smb2Header
resolved session tree h = record h {
  session_id = named (2 ^ 64 - 1) session h.session_id;
  tree_id = named (2 ^ 32 - 1) tree h.tree_id;
}

resolve_related_header_lem :
    (session tree : ℕ) (h : Smb2Header) (c : CompoundContext)
    → IsLater session tree c
    → resolve_related_header h c ≡ ok (resolved session tree h)
unfolding resolve_related_header resolve_session_id resolve_tree_id is_first
resolve_related_header_lem session tree h c v =
    let later : nat_eq c.current_index 0 ≡ false = ground (arith, v.started) in
    rw (v.is_related, later, v.session_known, v.tree_known) (ground arith)

module _ {W : Type 0} (v : Services W) where
  abbrev Parses : List (List ℕ) → Type 0
  Parses [] = Unit
  Parses (bytes ∷ rest) = ((h : Smb2Header) × (v.read_header bytes ≡ some h)) × Parses rest

  -- One error response for a command.
  abbrev refuse_command :
      ℕ → ℕ → ℕ → Option Smb2Header → Action (ConnectionHandler W) HandlerError (List ℕ)
  refuse_command code session tree none = pure []
  refuse_command code session tree (some h) =
      refuse v h code (named (2 ^ 64 - 1) session h.session_id) (named (2 ^ 32 - 1) tree h.tree_id)

  -- The error responses of the code for a list of commands, and nothing else.
  abbrev pub refuse_all :
      ℕ → ℕ → ℕ → List (List ℕ) → Action (ConnectionHandler W) HandlerError (List (List ℕ))
  refuse_all code session tree [] = pure []
  refuse_all code session tree (bytes ∷ rest) =
      refuse_command code session tree (v.read_header bytes) >>= λ response.
      refuse_all code session tree rest >>= λ later. pure (response ∷ later)

  abbrev refused_round : ℕ → CompoundContext → List ℕ → Round
  refused_round code c signed = record {
    response = signed;
    context = advance c (failure code);
    last_error = some code;
  }

  take_refused :
      (code session tree i : ℕ) (c : CompoundContext) (bytes : List ℕ) (h : Smb2Header)
      (s : ConnectionHandler W)
      → IsLater session tree c
      → 1 ≤ i
      → take_command v true i (some code) c bytes (some h) s
        ≡ (refuse_command code session tree (some h) >>= λ signed.
              pure (refused_round code c signed))
            s
  unfolding serve build_error_response_with_ids
  take_refused code session tree i c bytes h s k le =
      let later : nat_eq i 0 ≡ false = ground (arith, le) in
      rw (later, resolve_related_header_lem session tree h c k) rw later refl

  abbrev on_round :
      {A : Type 0}
      → (Round → Action (ConnectionHandler W) HandlerError A)
      → Result HandlerError Round × ConnectionHandler W
      → Result HandlerError A × ConnectionHandler W
  on_round k b = proceed b.0 k b.1

  abbrev consing :
      List ℕ
      → Result HandlerError (List (List ℕ)) × ConnectionHandler W
      → Result HandlerError (List (List ℕ)) × ConnectionHandler W
  consing r b = proceed b.0 (λ later. pure (r ∷ later)) b.1

  refuse_command_still :
      (code session tree : ℕ) (h : Option Smb2Header) (s : ConnectionHandler W)
      → (refuse_command code session tree h s).1 ≡ s
  refuse_command_still code session tree none s = refl
  refuse_command_still code session tree (some h) s =
      proceed_still (λ r t. (v.sign t r, t))
        (build_error_response_with_ids v h code (named (2 ^ 64 - 1) session h.session_id)
          (named (2 ^ 32 - 1) tree h.tree_id))
        s s refl (λ r. refl)

  refuse_all_still :
      (code session tree : ℕ) (cmds : List (List ℕ)) (s : ConnectionHandler W)
      → (refuse_all code session tree cmds s).1 ≡ s
  refuse_all_still code session tree [] s = refl
  refuse_all_still code session tree (bytes ∷ rest) s =
      let answers = refuse_all code session tree rest s in
      proceed_still (λ r. refuse_all code session tree rest >>= λ later. pure (r ∷ later))
        (refuse_command code session tree (v.read_header bytes) s).0
        (refuse_command code session tree (v.read_header bytes) s).1 s
        (refuse_command_still code session tree (v.read_header bytes) s)
        (λ r.
          proceed_still (λ later. pure (r ∷ later)) answers.0 answers.1 s
            (refuse_all_still code session tree rest s) (λ later. refl))

  -- In a related compound whose session and tree are known, once a command has failed, each later one
  -- whose header parses is answered with its error.
  process_commands-refuse_all :
      (code session tree i : ℕ) (c : CompoundContext) (cmds : List (List ℕ))
      (s : ConnectionHandler W)
      → IsLater session tree c
      → 1 ≤ i
      → Parses cmds
      → process_commands v true i (some code) c cmds s ≡ refuse_all code session tree cmds s
  unfolding process_commands
  process_commands-refuse_all code session tree i c [] s k le p = refl
  process_commands-refuse_all code session tree i c (bytes ∷ rest) s k le ((h, e), p) =
      let next : Round → Action (ConnectionHandler W) HandlerError (List (List ℕ)) = λ d.
        process_commands v true (i + 1) d.last_error d.context rest >>= λ later.
        pure (d.response ∷ later) in
      let m = refuse_command code session tree (some h) in
      let answers : Action (ConnectionHandler W) HandlerError (List (List ℕ)) =
        refuse_all code session tree rest in
      rw e (
        ap (on_round next) (take_refused code session tree i c bytes h s k le)
        ∙ bind_bound m (refused_round code c) next s
        ∙ proceed_ext (λ r. next (refused_round code c r))
            (λ r. answers >>= λ later. pure (r ∷ later)) (m s).0 (m s).1
            (λ r. ap (consing r) (
              process_commands-refuse_all code session tree (i + 1) (advance c (failure code)) rest
                (m s).1 (advance-IsLater session tree code c k) (omega arith) p)))

  -- In a related compound whose session and tree are known, once a command has failed, the later ones,
  -- whose headers parse, are answered with its error, each under the IDs that it names or that stand
  -- for its sentinels, and the handler's state stays: nothing is dispatched and no credit is taken.
  pub failure_propagates :
      (code session tree i : ℕ) (c : CompoundContext) (cmds : List (List ℕ))
      (s : ConnectionHandler W)
      → IsLater session tree c
      → 1 ≤ i
      → Parses cmds
      → (process_commands v true i (some code) c cmds s ≡ refuse_all code session tree cmds s)
        × ((process_commands v true i (some code) c cmds s).1 ≡ s)
  failure_propagates code session tree i c cmds s k le p =
      let same = process_commands-refuse_all code session tree i c cmds s k le p in
      (same, ap (λ b. b.1) same ∙ refuse_all_still code session tree cmds s)

  -- Where the first command of a related compound fails, and the second names its session by the
  -- sentinel, the whole request ends with an invalid parameter and no command has its answer: the
  -- session of the first command was not recorded, and it is looked for before the error is passed on.
  pub first_failure_aborts :
      (total : ℕ) (first second : List ℕ) (rest : List (List ℕ)) (h k : Smb2Header)
      (e : HandlerError) (s t : ConnectionHandler W) (answer : List ℕ)
      → v.read_header first ≡ some h
      → v.dispatch h first (related total) (take_credits h s) ≡ (err e, t)
      → refuse v h (error_status e) h.session_id h.tree_id t ≡ (ok answer, t)
      → v.read_header second ≡ some k
      → k.session_id ≡ 2 ^ 64 - 1
      → process_commands v true 0 none (related total) (first ∷ second ∷ rest) s
        ≡ (err (status_error invalid_parameter), t)
  unfolding process_commands serve run_command resolve_related_header resolve_session_id is_first
      advance related
  first_failure_aborts total first second rest h k e s t answer hf fails answered hs sentinel =
      rw hf rw fails rw answered rw hs rw sentinel refl

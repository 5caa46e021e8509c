-- ===== src/Handler/Answers.antt =====
-- Every command of an unrelated compound request has its answer.
use rustsmb.Base.{ℕ, ◌+◌, ◌≡◌, refl, ap, false, Option, none, some, List, [], ◌∷◌, length, arith}
use rustsmb.Core.Action.{Result, ok, err, Action, pure, proceed, ◌>>=◌}
use rustsmb.Compound.{FileId, CompoundContext, advance, failure}
use rustsmb.Handler.{
  Smb2Header, HandlerError, error_status, after_success, or_zero, ConnectionHandler, Services,
  Round, placeholder, invalid_parameter, take_credits, build_error_response_with_ids, error_header,
  refuse, record_outcome, run_command, serve, take_command, process_commands,
}

-- Headers can be written, and responses signed.
pub record CanAnswer {W : Type 0} (v : Services W) : Type 0 where
  pub writes : (h : Smb2Header) → (bytes : List ℕ) × (v.write_header h ≡ some bytes)
  pub signs : (s : ConnectionHandler W) (r : List ℕ) → (signed : List ℕ) × (v.sign s r ≡ ok signed)

-- A method returns, and not with an error.
abbrev Succeeds : {S E A : Type 0} → Action S E A → S → Type 0
Succeeds {S} {E} {A} m s = (a : A) × (t : S) × (m s ≡ (ok a, t))

module _ {S E A R : Type 0} where
  Succeeds-pure :
      (m : Action S E A) (f : A → R) (s : S) → Succeeds m s → Succeeds (m >>= λ a. pure (f a)) s
  Succeeds-pure m f s (a, t, e) =
      (f a, t, ap (λ (r : Result E A × S). proceed r.0 (λ x. pure (f x)) r.1) e)

module _ {W : Type 0} (v : Services W) (can : CanAnswer v) where
  signing : (r : List ℕ) (s : ConnectionHandler W) → Succeeds (λ t. (v.sign t r, t)) s
  signing r s = let (signed, e) = can.signs s r in (signed, s, ap (λ x. (x, s)) e)

  refusing :
      (h : Smb2Header) (code session tree : ℕ) (s : ConnectionHandler W)
      → Succeeds (refuse v h code session tree) s
  unfolding build_error_response_with_ids
  refusing h code session tree s =
      let (bytes, e) = can.writes (error_header h code session tree) in rw e (signing _ s)

  abbrev failed : CompoundContext → ℕ → List ℕ → Round
  failed c code signed = record {
    response = signed;
    context = advance c (failure code);
    last_error = some code;
  }

  outcome :
      (i : ℕ) (last : Option ℕ) (c : CompoundContext) (h : Smb2Header)
      (r : Result HandlerError (List ℕ × Option FileId)) (s : ConnectionHandler W)
      → Succeeds (record_outcome v i last c h r) s
  outcome i last c h (ok (response, file)) s =
      Succeeds-pure (λ t. (v.sign t response, t))
        (λ signed. record {
          response = signed;
          context = after_success i h file c;
          last_error = last;
        })
        s (signing response s)
  outcome i last c h (err e) s =
      Succeeds-pure (refuse v h (error_status e) h.session_id h.tree_id) (failed c (error_status e))
        s (refusing h (error_status e) h.session_id h.tree_id s)

  serving :
      (i : ℕ) (last : Option ℕ) (c : CompoundContext) (bytes : List ℕ) (h : Smb2Header)
      (s : ConnectionHandler W)
      → Succeeds (serve v false i last c bytes h) s
  unfolding serve run_command
  serving i none c bytes h s =
      let d = v.dispatch h bytes c (take_credits h s) in outcome i none c h d.0 d.1
  serving i (some code) c bytes h s =
      let d = v.dispatch h bytes c (take_credits h s) in outcome i (some code) c h d.0 d.1

  taking :
      (i : ℕ) (last : Option ℕ) (c : CompoundContext) (bytes : List ℕ) (o : Option Smb2Header)
      (s : ConnectionHandler W)
      → Succeeds (take_command v false i last c bytes o) s
  taking i last c bytes none s =
      let session = or_zero c.session_id in
      let tree = or_zero c.tree_id in
      Succeeds-pure (refuse v (placeholder session tree) invalid_parameter session tree)
        (failed c invalid_parameter) s
        (refusing (placeholder session tree) invalid_parameter session tree s)
  taking i last c bytes (some h) s = serving i last c bytes h s

  -- In an unrelated compound each command has one response, whatever is dispatched and whichever
  -- commands fail or do not parse, where headers can be written and responses signed.
  pub process_commands-length :
      (i : ℕ) (last : Option ℕ) (c : CompoundContext) (cmds : List (List ℕ))
      (s : ConnectionHandler W)
      → (rs : List (List ℕ)) × (t : ConnectionHandler W) × (process_commands v false i last c cmds s
          ≡ (ok rs, t))
        × (length rs ≡ length cmds)
  unfolding process_commands
  process_commands-length i last c [] s = ([], s, refl, refl)
  process_commands-length i last c (bytes ∷ rest) s =
      let (d, t, e) = taking i last c bytes (v.read_header bytes) s in
      let (rs, u, f, n) = process_commands-length (i + 1) d.last_error d.context rest t in
      (d.response ∷ rs, u, rw e (rw f refl), omega (arith, n))

-- ===== src/Encoding/Decode/Nullable.antt =====
-- Whatever the encoding, a result of `decode` keeps to the nullability that its type declares.
use vortex_go.Base.{
  ℕ, zero, suc, ◌≡◌, ◌≢◌, subst, Bool, true, false, not, ◌&&◌, Option, none, some, List, [], ◌∷◌,
  ltb,
}
use vortex_go.Outcome.{Error, ok, refuse, refuse-ok, ok-injective}
use vortex_go.Outcome.Act.{lift, bind-eq-ok}
use vortex_go.Schema.{VortexType, Kind, kind_of, is_kind, is_nullable}
use vortex_go.Schema.Arrow.{ArrowTypes}
use vortex_go.Encoding.Proto.{parse_proto}
use vortex_go.Encoding.Values.{Node, node, Values, Decoder, valid_of, max_rows, is_valid}
use vortex_go.Encoding.Decode.{Others, has_null, dispatch, ask, checked, decode}

no_null : (m : Option (List Bool)) (i : ℕ) → has_null m ≡ false → is_valid m i ≢ ok false
unfolding has_null is_valid
no_null none i h e = cc (ok-injective e)
no_null (some []) i h e = cc
no_null (some (false ∷ bs)) i h e = cc
no_null (some (true ∷ bs)) zero h e = cc (ok-injective e)
no_null (some (true ∷ bs)) (suc i) h e = no_null (some bs) i h e

forbidden : (a b c : Bool) → a ≡ false → b ≡ false → (not a && not b && c) ≡ false → c ≡ false
forbidden true b c p q h = cc
forbidden false true c p q h = cc
forbidden false false c p q h = h

module _ (arrow : ArrowTypes) (others : Others) (ctx_err : ℕ → Option Error) where
  checked_lem :
      (t : VortexType) (v : Values) (d : Decoder) (out : Values)
      → is_nullable t ≡ false
      → is_kind (kind_of t) Kind.null ≡ false
      → (checked arrow others ctx_err t v d).0 ≡ ok out
      → has_null (valid_of out) ≡ false
  unfolding checked
  checked_lem t v d out nonnull kind h =
      let (u, p, h1) = bind-eq-ok (lift (refuse _ _)) _ d h in
      let clean = forbidden _ _ _ nonnull kind (refuse-ok _ _ p) in
      subst (λ x. has_null (valid_of x) ≡ false) (ok-injective h1) clean

  -- If `decode` returns values of a type that is not nullable and not the null type, at whatever depth
  -- and by whatever encoding, then none of their rows is null.
  pub decode_nonnull :
      (levels : ℕ) (n : Node) (t : VortexType) (rows : ℕ) (d : Decoder) (out : Values) (i : ℕ)
      → is_nullable t ≡ false
      → is_kind (kind_of t) Kind.null ≡ false
      → (decode arrow others ctx_err levels n t rows d).0 ≡ ok out
      → is_valid (valid_of out) i ≢ ok false
  unfolding decode
  decode_nonnull zero n t rows d out i nonnull kind h =
      let (u, p, h1) = bind-eq-ok (ask arrow others ctx_err) _ d h in cc
  decode_nonnull (suc levels) (node e metadata bs cs) t rows d out i nonnull kind h =
      let (u1, p1, h1) = bind-eq-ok (ask arrow others ctx_err) _ d h in
      let (u2, p2, h2) = bind-eq-ok (lift (refuse (ltb max_rows rows) _)) _ _ h1 in
      let (m, p3, h3) = bind-eq-ok (lift (parse_proto metadata)) _ _ h2 in
      let (v, p4, h4) =
        bind-eq-ok
          (dispatch arrow others ctx_err e (decode arrow others ctx_err levels)
            (node e metadata bs cs) t rows m)
          _ _ h3 in
      no_null (valid_of out) i (checked_lem t v _ out nonnull kind h4)

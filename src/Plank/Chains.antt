-- ===== src/Plank/Chains.antt =====
-- plank/pkg/routing/router.go, plank/pkg/middleware/middleware_manager.go: the two loops that put
-- middleware around a handler.
use ranch.Prelude.{
  List, [], ap, arith, false, get_elem?, length, nat_eq, none, refl, some, string_eq, suc, sym,
  take, true, zero, ℕ, ◌<◌, ◌==◌, ◌∙◌, ◌∷◌, ◌≡◌,
}
use ranch.Plank.Router.{build_middleware_chain, chain_loop, wrap}
use ranch.Plank.Middleware.{manager_chain, manager_loop}

-- The first of the list is the outermost.
abbrev pub chain : List (ℕ → ℕ) → ℕ → ℕ
chain [] h = h
chain (f ∷ fs) h = f (chain fs h)

chain-take :
    (n : ℕ) (fs : List (ℕ → ℕ)) (h : ℕ)
    → chain (take (suc n) fs) h ≡ chain (take n fs) (wrap (get_elem? fs n) h)
chain-take zero [] h = refl
chain-take (suc n) [] h = refl
chain-take zero (f ∷ fs) h = refl
chain-take (suc n) (f ∷ fs) h = ap f (chain-take n fs h)

chain_loop-take : (n : ℕ) (fs : List (ℕ → ℕ)) (h : ℕ) → chain_loop n fs h ≡ chain (take n fs) h
unfolding chain_loop
chain_loop-take zero fs h = refl
chain_loop-take (suc n) fs h =
    chain_loop-take n fs (wrap (get_elem? fs n) h) ∙ sym (chain-take n fs h)

take-length : {A : Type 0} (xs : List A) → take (length xs) xs ≡ xs
take-length [] = refl
take-length (x ∷ xs) = ap (λ ys. x ∷ ys) (take-length xs)

manager_loop_lem :
    (n : ℕ) (fs : List (ℕ → ℕ)) (original h : ℕ)
    → n < length fs
    → manager_loop n fs original (some h) ≡ some (chain_loop n fs h)
unfolding manager_loop chain_loop
manager_loop_lem zero fs original h below = refl
manager_loop_lem (suc n) fs original h below =
    let rest = manager_loop_lem n fs original (wrap (get_elem? fs n) h) (omega (arith, below)) in
    let inside : (suc n == length fs) ≡ false =
      ground (arith, below, nat_eq.beq_iff (suc n) (length fs)) in
    rw inside rest

-- The first round starts from the handler itself.
first_round :
    (n : ℕ) (fs : List (ℕ → ℕ)) (original : ℕ)
    → suc n ≡ length fs
    → manager_loop (suc n) fs original none ≡ some (chain_loop (suc n) fs original)
unfolding manager_loop chain_loop
first_round n fs original whole =
    let last : (suc n == length fs) ≡ true =
      ground (arith, whole, nat_eq.beq_iff (suc n) (length fs)) in
    rw last (manager_loop_lem n fs original (wrap (get_elem? fs n) original) (omega (arith, whole)))

pub manager_chain_lem :
    (f : ℕ → ℕ) (fs : List (ℕ → ℕ)) (original : ℕ)
    → manager_chain (f ∷ fs) original ≡ some (build_middleware_chain (f ∷ fs) original)
unfolding manager_chain build_middleware_chain
manager_chain_lem f fs original = first_round (length fs) (f ∷ fs) original refl

-- The loop of the router and that of the middleware manager give the same handler, the first middleware outermost and the last next to the handler, except that the manager's gives nil when there is no middleware.
pub build_middleware_chain_lem :
    (f : ℕ → ℕ) (fs : List (ℕ → ℕ)) (handler : ℕ)
    → (build_middleware_chain (f ∷ fs) handler ≡ chain (f ∷ fs) handler)
      × (manager_chain (f ∷ fs) handler ≡ some (chain (f ∷ fs) handler))
      × (build_middleware_chain [] handler ≡ handler)
      × (manager_chain [] handler ≡ none)
unfolding build_middleware_chain manager_chain manager_loop chain_loop
build_middleware_chain_lem f fs handler =
    let built : build_middleware_chain (f ∷ fs) handler ≡ chain (f ∷ fs) handler =
      chain_loop-take (length (f ∷ fs)) (f ∷ fs) handler
      ∙ ap (λ gs. chain gs handler) (take-length (f ∷ fs)) in
    (built, manager_chain_lem f fs handler ∙ ap some built, refl, refl)

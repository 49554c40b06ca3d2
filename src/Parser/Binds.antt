-- ===== src/Parser/Binds.antt =====
-- What the expression parser of src/parser.cpp does behind a node, when the node is an outcome of its
-- own.
use core_vm.Base.{◌≡◌, refl, ap, ◌∙◌, sym, true, false, List, ◌∷◌}
use core_vm.Base.Outcome.{
  Outcome, ok, panicked, aborted, undefined, trapped, out_of_fuel, ◌>>=◌, bind_assoc,
  require_rparentheses, Panic,
}
use core_vm.Types.{CvmType}
use core_vm.Adt.{Adt, is_rparentheses}
use core_vm.Ir.{Ir, get_res_type, cast}
use core_vm.Parser.{Parsed, close, get_cast_code}

-- Steps that agree everywhere agree behind the same first step.
pub bind_cong :
    {A B : Type 0} (r : Outcome A) {f g : A → Outcome B}
    → ((a : A) → f a ≡ g a)
    → (r >>= f) ≡ (r >>= g)
bind_cong (ok a) h = h a
bind_cong (panicked _) h = refl
bind_cong aborted h = refl
bind_cong undefined h = refl
bind_cong trapped h = refl
bind_cong out_of_fuel h = refl

-- a node before the tokens that are left
abbrev pub before : List Adt → Ir → Outcome Parsed
before rest ir = ok (ir, rest)

-- a right side that is parsed and joined to a left side
pub joined :
    (l r : Outcome Ir) (rest : List Adt) (make : Ir → Ir → Outcome Ir)
    (k : Ir → List Adt → Outcome Parsed)
    → (l >>= λ lhs.
        (r >>= λ ir. ok (ir, rest)) >>= λ (rhs, rest'). make lhs rhs >>= λ res. k res rest')
      ≡ (l >>= λ lhs. r >>= λ rhs. make lhs rhs) >>= λ res. k res rest
joined (ok a) (ok b) rest make k = refl
joined (ok a) (panicked _) rest make k = refl
joined (ok a) aborted rest make k = refl
joined (ok a) undefined rest make k = refl
joined (ok a) trapped rest make k = refl
joined (ok a) out_of_fuel rest make k = refl
joined (panicked _) r rest make k = refl
joined aborted r rest make k = refl
joined undefined r rest make k = refl
joined trapped r rest make k = refl
joined out_of_fuel r rest make k = refl

-- the conversion behind `(type)`, of a node and the tokens that are left
abbrev pub converts : CvmType → Parsed → Outcome Parsed
converts t (ir, rest) = do op ← get_cast_code (get_res_type ir) t; ok (cast op t ir, rest)

pub converted :
    (r : Outcome Ir) (rest : List Adt) (t : CvmType)
    → ((r >>= before rest) >>= converts t)
      ≡ (r >>= λ ir. get_cast_code (get_res_type ir) t >>= λ op. ok (cast op t ir)) >>= before rest
converted (ok ir) rest t =
    sym (bind_assoc (get_cast_code (get_res_type ir) t) (λ op. ok (cast op t ir)) (before rest))
converted (panicked _) rest t = refl
converted aborted rest t = refl
converted undefined rest t = refl
converted trapped rest t = refl
converted out_of_fuel rest t = refl

-- a node behind which its group is closed
pub closed :
    (r : Outcome Ir) (c : Adt) (rest : List Adt)
    → is_rparentheses c.tag ≡ false
    → ((r >>= before (c ∷ rest)) >>= λ (res, rest'). close res rest') ≡ r >>= λ ir. ok (ir, rest)
unfolding close
closed (ok ir) c rest h = rw h
closed (panicked _) c rest h = refl
closed aborted c rest h = refl
closed undefined c rest h = refl
closed trapped c rest h = refl
closed out_of_fuel c rest h = refl

-- a node behind which a parenthesis stands, and what goes on behind the panic
pub refused :
    (r : Outcome Ir) (c : Adt) (rest : List Adt)
    → is_rparentheses c.tag ≡ true
    → ((r >>= before (c ∷ rest)) >>= λ (res, rest'). close res rest')
      ≡ r >>= λ ir. panicked require_rparentheses
unfolding close
refused r c rest h =
    bind_assoc r (before (c ∷ rest)) (λ (res, rest'). close res rest')
    ∙ bind_cong r (λ ir. rw (close, h))

pub stays_panicked :
    (r : Outcome Ir) (p : Panic) (k k' : Parsed → Outcome Parsed)
    → (((r >>= λ ir. panicked p) >>= k) >>= k') ≡ r >>= λ ir. panicked p
stays_panicked r p k k' =
    ap (λ (x : Outcome Parsed). x >>= k') (bind_assoc r (λ ir. panicked p) k)
    ∙ bind_assoc r (λ ir. panicked p) k'

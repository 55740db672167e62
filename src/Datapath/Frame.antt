-- ===== src/Datapath/Frame.antt =====
-- What a hook does to a node, as a relation between the node before and after it: a calculus that
-- follows the steps of the hook.
use beep.Common.{
  Bool, true, false, Option, none, some, if◌then◌else◌, ◌≡◌, refl, sym, subst, List, [], ◌∷◌,
}
use beep.Datapath.{
  Node, Skb, Verdict, World, Step, next, done, Hook, ◌>>=◌, ◌>>◌, pure, return, or_none, or_return,
  node_of, skb_of, change_node, change_skb, unless, accepted_by, accepted, accepted_or,
  accepted_or_none, world_of, then_step,
}

-- A condition on a node, kept by a relation that holds over no step and over two steps.
pub record Frame : Type 1 where
  pub rel : Node → Node → Type 0
  pub at : Node → Type 0
  pub stays : (n : Node) → rel n n
  pub joins : (n n' n'' : Node) → rel n n' → rel n' n'' → rel n n''
  pub stable : (n n' : Node) → rel n n' → at n → at n'

-- From every node with the condition, the hook's effect is in the relation.
pub record Keeps (F : Frame) {A : Type 0} (m : Hook A) : Type 0 where
  pub kept : (w : World) → F.at w.node → F.rel w.node (world_of (m w)).node

module _ (F : Frame) where
  same : {A : Type 0} (m : Hook A) → ((w : World) → (world_of (m w)).node ≡ w.node) → Keeps F m
  same m h = record { kept = λ w p. subst (F.rel w.node) (sym (h w)) (F.stays w.node) }

  pub Keeps-pure : {A : Type 0} (a : A) → Keeps F (pure a)
  unfolding pure
  Keeps-pure a = same _ (λ w. refl)

  pub Keeps-return : {A : Type 0} (v : Verdict) → Keeps F (return {A = A} v)
  unfolding return
  Keeps-return v = same _ (λ w. refl)

  pub Keeps-or_none : {A : Type 0} (o : Option A) → Keeps F (or_none o)
  unfolding or_none
  Keeps-or_none (some a) = same _ (λ w. refl)
  Keeps-or_none none = same _ (λ w. refl)

  pub Keeps-or_return : {A : Type 0} (v : Verdict) (o : Option A) → Keeps F (or_return v o)
  unfolding or_return
  Keeps-or_return v (some a) = same _ (λ w. refl)
  Keeps-or_return v none = same _ (λ w. refl)

  pub Keeps-node_of : {A : Type 0} (f : Node → A) → Keeps F (node_of f)
  unfolding node_of
  Keeps-node_of f = same _ (λ w. refl)

  pub Keeps-skb_of : {A : Type 0} (f : Skb → A) → Keeps F (skb_of f)
  unfolding skb_of
  Keeps-skb_of f = same _ (λ w. refl)

  pub Keeps-change_skb : (f : Skb → Skb) → Keeps F (change_skb f)
  unfolding change_skb
  Keeps-change_skb f = same _ (λ w. refl)

  pub Keeps-change_node :
      (f : Node → Node) → ((n : Node) → F.at n → F.rel n (f n)) → Keeps F (change_node f)
  unfolding change_node
  Keeps-change_node f h = record { kept = λ w p. h w.node p }

  accepted_by-node : (l : List Bool) (w : World) → (world_of (accepted_by l w)).node ≡ w.node
  unfolding accepted_by
  accepted_by-node [] w = refl
  accepted_by-node (r ∷ rs) w = refl

  pub Keeps-accepted : Keeps F accepted
  unfolding accepted
  Keeps-accepted = same _ (λ w. accepted_by-node w.refused w)

  pub Keeps-if :
      {A : Type 0} (c : Bool) (m k : Hook A) → Keeps F m → Keeps F k → Keeps F (if c then m else k)
  Keeps-if true m k hm hk = hm
  Keeps-if false m k hm hk = hk

  pub Keeps-unless : (c : Bool) (m : Hook (Unit {0})) → Keeps F m → Keeps F (unless c m)
  Keeps-unless true m h = Keeps-pure tt
  Keeps-unless false m h = h

  -- A step on what was read of the node, with the node that it was read of.
  pub Keeps-read :
      {A B : Type 0} (f : Node → A) (k : A → Hook B)
      → ((w : World) → F.at w.node → F.rel w.node (world_of (k (f w.node) w)).node)
      → Keeps F (node_of f >>= k)
  unfolding ◌>>=◌ node_of
  Keeps-read f k h = record { kept = h }

  -- A step on what was read of the packet.
  pub Keeps-packet :
      {A B : Type 0} (f : Skb → A) (k : A → Hook B)
      → ((s : Skb) → Keeps F (k (f s)))
      → Keeps F (skb_of f >>= k)
  unfolding ◌>>=◌ skb_of
  Keeps-packet f k h = record { kept = λ w p. (h w.skb).kept w p }

  joined :
      {A B : Type 0} (k : A → Hook B) (w : World) (s : Step A)
      → ((a : A) → Keeps F (k a))
      → F.at w.node
      → F.rel w.node (world_of s).node
      → F.rel w.node (world_of (then_step k s)).node
  joined k w (next a w') hk p r =
      let later = (hk a).kept w' (F.stable w.node w'.node r p) in
      F.joins w.node w'.node (world_of (k a w')).node r later
  joined k w (done v w') hk p r = r

  pub Keeps-bind :
      {A B : Type 0} (m : Hook A) (k : A → Hook B)
      → Keeps F m
      → ((a : A) → Keeps F (k a))
      → Keeps F (m >>= k)
  unfolding ◌>>=◌
  Keeps-bind m k hm hk = record { kept = λ w p. joined k w (m w) hk p (hm.kept w p) }

  pub Keeps-then :
      {B : Type 0} (m : Hook (Unit {0})) (k : Hook B) → Keeps F m → Keeps F k → Keeps F (m >> k)
  unfolding ◌>>◌
  Keeps-then m k hm hk = Keeps-bind m (λ _. k) hm (λ _. hk)

  pub Keeps-accepted_or : (v : Verdict) → Keeps F (accepted_or v)
  unfolding accepted_or
  Keeps-accepted_or v =
      Keeps-bind _ _ Keeps-accepted (λ a. Keeps-if a _ _ (Keeps-pure tt) (Keeps-return v))

  pub Keeps-accepted_or_none : Keeps F accepted_or_none
  unfolding accepted_or_none
  Keeps-accepted_or_none =
      Keeps-bind _ _ Keeps-accepted (λ a. Keeps-if a _ _ (Keeps-pure tt) (Keeps-or_none none))

  -- Nothing follows a verdict.
  pub Keeps-ended : {A B : Type 0} (v : Verdict) (k : A → Hook B) → Keeps F (return v >>= k)
  unfolding ◌>>=◌ return
  Keeps-ended v k = same _ (λ w. refl)

-- The same relation from a condition that implies the frame's.
pub Keeps-from :
    (F G : Frame) {A : Type 0} (m : Hook A)
    → ((w : World) → F.at w.node → G.at w.node)
    → ((n n' : Node) → G.rel n n' → F.rel n n')
    → Keeps G m
    → Keeps F m
Keeps-from F G m h r k = record { kept = λ w p. r w.node (world_of (m w)).node (k.kept w (h w p)) }

-- A property of the value that a step goes on with.
abbrev pub OnStep : {A : Type 0} → (A → Type 0) → Step A → Type 0
OnStep Q (next a w) = Q a
OnStep Q (done v w) = Unit {0}

pub record Yields {A : Type 0} (Q : A → Type 0) (m : Hook A) : Type 0 where
  pub yields : (w : World) → OnStep Q (m w)

module _ {A : Type 0} (Q : A → Type 0) where
  pub Yields-pure : (a : A) → Q a → Yields Q (pure a)
  unfolding pure
  Yields-pure a q = record { yields = λ w. q }

  pub Yields-return : (v : Verdict) → Yields Q (return v)
  unfolding return
  Yields-return v = record { yields = λ w. tt }

  pub Yields-none : Yields Q (or_none none)
  unfolding or_none
  Yields-none = record { yields = λ w. tt }

  pub Yields-if :
      (c : Bool) (m k : Hook A) → Yields Q m → Yields Q k → Yields Q (if c then m else k)
  Yields-if true m k hm hk = hm
  Yields-if false m k hm hk = hk

  module _ {B : Type 0} where
    later : (k : B → Hook A) (s : Step B) → ((b : B) → Yields Q (k b)) → OnStep Q (then_step k s)
    later k (next b w) h = (h b).yields w
    later k (done v w) h = tt

    pub Yields-bind :
        (m : Hook B) (k : B → Hook A) → ((b : B) → Yields Q (k b)) → Yields Q (m >>= k)
    unfolding ◌>>=◌
    Yields-bind m k h = record { yields = λ w. later k (m w) h }

  module _ (F : Frame) {B : Type 0} (k : A → Hook B) (h : (a : A) → Q a → Keeps F (k a)) where
    joined_yield :
        (w : World) (s : Step A)
        → OnStep Q s
        → F.at w.node
        → F.rel w.node (world_of s).node
        → F.rel w.node (world_of (then_step k s)).node
    joined_yield w (next a w') q p r =
        let after = (h a q).kept w' (F.stable w.node w'.node r p) in
        F.joins w.node w'.node (world_of (k a w')).node r after
    joined_yield w (done v w') q p r = r

    -- The steps after one whose value has the property.
    pub Keeps-bind-Yields : (m : Hook A) → Keeps F m → Yields Q m → Keeps F (m >>= k)
    unfolding ◌>>=◌
    Keeps-bind-Yields m hm q = record {
      kept = λ w p. joined_yield w (m w) (q.yields w) p (hm.kept w p);
    }

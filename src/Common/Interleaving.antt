-- ===== src/Common/Interleaving.antt =====
-- Two calls of asynchronous methods that run at the same time: what stands between two awaits of
-- one is a step, and the other may take its steps in between.
module _ {Call State : Type 0} (Step : Call → State → Call → State → Type 0) where
  -- the steps of two calls, in any order
  pub data Steps : Call → Call → State → Call → Call → State → Type 0 where
    done : {p q : Call} {w : State} → Steps p q w p q w
    first :
        {p p' r q s : Call} {w v u : State} → Step p w p' v → Steps p' q v r s u → Steps p q w r s u
    second :
        {p q q' r s : Call} {w v u : State} → Step q w q' v → Steps p q' v r s u → Steps p q w r s u

-- ===== src/Conn/Fresh.antt =====
-- The IDs that a connection gives out, until its counter wraps around after 2^63 requests.
use sprout_go.Base.{ℕ, suc, ◌<◌, ◌≡◌, ◌∙◌, refl, sym, ap, subst, List, [], ◌∷◌, arith, Option, Text}
use sprout_go.Base.Int.{ℤ, pos, negsuc, int_bound, succ_int}
use sprout_go.Conn.State.{Conn, new_conn, delete, store}
use sprout_go.Conn.Pending.{IdsBelow}
use sprout_go.Conn.Kept.{IsKeptByWrites, IsKeptByReplies, IsKeptByRequests, IsKeptByReads}

-- As many IDs were given out as channels were made, and each pending ID is one of them.
pub record HasCounted {N : Type 0} (c : Conn N) : Type 0 where
  pub counter : c.next_message_id ≡ pos c.channels
  pub ids_below : IdsBelow c.channels c.pending

-- The counter has counted so far, unless it has wrapped around.
pub record IsCounting {N : Type 0} (c : Conn N) : Type 0 where
  pub counting : c.channels < int_bound → HasCounted c

delete-IdsBelow : (n : ℕ) (id : ℤ) (m : List (ℤ × ℕ)) → IdsBelow n m → IdsBelow n (delete id m)
delete-IdsBelow n id [] b = tt
delete-IdsBelow n id ((pos i, ch) ∷ m) b = ground (arith, delete-IdsBelow n id m b.1)
delete-IdsBelow n id ((negsuc i, ch) ∷ m) b = absurd b

IdsBelow-suc : (n : ℕ) (m : List (ℤ × ℕ)) → IdsBelow n m → IdsBelow (suc n) m
IdsBelow-suc n [] b = tt
IdsBelow-suc n ((pos i, ch) ∷ m) b = (omega (arith, b.0), IdsBelow-suc n m b.1)
IdsBelow-suc n ((negsuc i, ch) ∷ m) b = absurd b

succ_int-pos : (n : ℕ) → suc n < int_bound → succ_int (pos n) ≡ pos (suc n)
unfolding succ_int
succ_int-pos n h = ground arith

module _ {N : Type 0} where
  pub written-IsCounting : IsKeptByWrites (IsCounting {N = N})
  written-IsCounting = record {
    written = λ c output faults s. record {
      counting =
          λ h. let t = s.counting h in record { counter = t.counter; ids_below = t.ids_below };
    };
  }

  pub read-IsCounting : IsKeptByReads (IsCounting {N = N})
  read-IsCounting = record {
    read = λ c rest s. record {
      counting =
          λ h. let t = s.counting h in record { counter = t.counter; ids_below = t.ids_below };
    };
  }

  pub delivered-IsCounting : IsKeptByReplies (IsCounting {N = N})
  delivered-IsCounting = record {
    delivered = λ c id ch r e s. record {
      counting = λ h.
          let t = s.counting h in
          record {
            counter = t.counter;
            ids_below = delete-IdsBelow c.channels id c.pending t.ids_below;
          };
    };
  }

  store-IdsBelow :
      (c : Conn N)
      → HasCounted c
      → IdsBelow (suc c.channels) (store c.next_message_id c.channels c.pending)
  store-IdsBelow c t =
      subst (λ i. IdsBelow (suc c.channels) (store i c.channels c.pending)) (sym t.counter)
        (
          omega arith,
          IdsBelow-suc c.channels _
              (delete-IdsBelow c.channels (pos c.channels) c.pending t.ids_below),
        )

  pub requested-IsCounting : IsKeptByRequests (IsCounting {N = N})
  requested-IsCounting = record {
    registered = λ c s. record {
      counting = λ h.
          let t = s.counting (omega (arith, h)) in
          record {
            counter = ap succ_int t.counter ∙ succ_int-pos c.channels h;
            ids_below = store-IdsBelow c t;
          };
    };
    cancelled = λ c id s. record {
      counting = λ h.
          let t = s.counting h in
          record {
            counter = t.counter;
            ids_below = delete-IdsBelow c.channels id c.pending t.ids_below;
          };
    };
  }

  pub new_conn-IsCounting :
      (input : Text) (faults : List (Option ℕ)) → IsCounting {N = N} (new_conn input faults)
  new_conn-IsCounting input faults = record {
    counting = λ h. record { counter = refl; ids_below = tt };
  }

-- ===== src/Schedule/Queue/Received.antt =====
-- What the consumers of a queue receive.
use mathlib.Core.Option.{some-injective}
use xgc_agent.Prelude.{
  ◌≡◌, refl, sym, ap, subst, ◌∙◌, Bool, true, false, some, List, [], ◌∷◌, ◌++◌, ◌⊎◌, inl, inr,
  arith, append_assoc, All, All-append, All-map_of,
}
use xgc_agent.Schedule.Queue.{
  Consumer, Phase, listening, appended, sending, ended, MessageQueue, new_queue, new_consumer, put,
  close, close_all, take_from, is_free, Step, appends, locks, sends, unlocks, ends, subscribes,
  takes, takes_unserved, Reach, here, then_step,
}

-- What the goroutine and `Subscribe` put into the consumer's channel, in order.
abbrev pub got : {Any : Type 0} → Consumer Any → List Any
got c = c.taken ++ c.items

-- All messages in order, and at most one of them twice in a row.
pub data HasAll {Any : Type 0} (messages : List Any) : List Any → Type 0 where
  exactly : HasAll messages messages
  repeated :
      (early late : List Any) (msg : Any) {xs : List Any}
      → messages ≡ early ++ msg ∷ late
      → xs ≡ early ++ msg ∷ msg ∷ late
      → HasAll messages xs

module _ {Any : Type 0} where
  HasAll-append :
      (messages xs : List Any) (msg : Any)
      → HasAll messages xs
      → HasAll (messages ++ msg ∷ []) (xs ++ msg ∷ [])
  HasAll-append messages xs msg exactly = exactly
  HasAll-append messages xs msg (repeated early late m p q) =
      repeated early (late ++ msg ∷ []) m
        (ap (λ l. l ++ msg ∷ []) p ∙ append_assoc early (m ∷ late) (msg ∷ []))
        (ap (λ l. l ++ msg ∷ []) q ∙ append_assoc early (m ∷ m ∷ late) (msg ∷ []))

  -- A consumer while a message is in hand: it has all before, or it was added after the message.
  abbrev pub IsDue : List Any → Any → Consumer Any → Type 0
  IsDue before msg c = HasAll before (got c) ⊎ (got c ≡ before ++ msg ∷ [])

  abbrev pub IsServed : List Any → Consumer Any → Type 0
  IsServed history c = HasAll history (got c)

  abbrev pub InvAt : Phase Any → List Any → List (Consumer Any) → List (Consumer Any) → Type 0
  InvAt listening history served unserved = All (IsServed history) served × (unserved ≡ [])
  InvAt ended history served unserved = All (IsServed history) served × (unserved ≡ [])
  InvAt (appended msg) history served unserved =
      (before : List Any) × (history ≡ before ++ msg ∷ [])
      × All (IsDue before msg) served
      × (unserved ≡ [])
  InvAt (sending msg) history served unserved =
      (before : List Any) × (history ≡ before ++ msg ∷ [])
      × All (IsServed history) served
      × All (IsDue before msg) unserved

  abbrev pub Inv : MessageQueue Any → Type 0
  Inv q = InvAt q.phase q.history q.served q.unserved

  -- One consumer of a list is replaced.
  All-replace :
      (P : Consumer Any → Type 0) (early late : List (Consumer Any)) (c d : Consumer Any)
      → (P c → P d)
      → All P (early ++ c ∷ late)
      → All P (early ++ d ∷ late)
  All-replace P [] late c d f h = (f h.0, h.1)
  All-replace P (x ∷ early) late c d f h = (h.0, All-replace P early late c d f h.1)

  got-take_from :
      (items : List Any) (c d : Consumer Any)
      → c.items ≡ items
      → take_from items c ≡ some d
      → got d ≡ got c
  unfolding take_from
  got-take_from [] c d e t = cc
  got-take_from (x ∷ xs) c d e t =
      ap got (sym (some-injective _ _ t))
      ∙ append_assoc c.taken (x ∷ []) xs
      ∙ ap (λ l. c.taken ++ l) (sym e)

  got-put : (msg : Any) (c d : Consumer Any) → put msg c ≡ some d → got d ≡ got c ++ msg ∷ []
  unfolding put
  got-put msg c d p =
      let same : record c { items = c.items ++ msg ∷ [] } ≡ d = ground arith in
      ap got (sym same) ∙ sym (append_assoc c.taken c.items (msg ∷ []))

  put-IsServed :
      (before : List Any) (msg : Any) (c d : Consumer Any)
      → put msg c ≡ some d
      → IsDue before msg c
      → IsServed (before ++ msg ∷ []) d
  put-IsServed before msg c d p (inl h) =
      subst (HasAll (before ++ msg ∷ [])) (sym (got-put msg c d p))
        (HasAll-append before (got c) msg h)
  put-IsServed before msg c d p (inr e) =
      repeated before [] msg refl
        (got-put msg c d p ∙ ap (λ l. l ++ msg ∷ []) e ∙ append_assoc before (msg ∷ []) (msg ∷ []))

  close_all-IsServed :
      (history : List Any) (cs : List (Consumer Any))
      → All (IsServed history) cs
      → All (IsServed history) (close_all cs)
  unfolding close close_all
  close_all-IsServed history [] h = tt
  close_all-IsServed history (c ∷ cs) h = (h.0, close_all-IsServed history cs h.1)

  replace-served :
      (p : Phase Any) (history : List Any) (early late : List (Consumer Any)) (c d : Consumer Any)
      (unserved : List (Consumer Any))
      → got d ≡ got c
      → InvAt p history (early ++ c ∷ late) unserved
      → InvAt p history (early ++ d ∷ late) unserved
  replace-served listening history early late c d unserved e i =
      (All-replace (IsServed history) early late c d (subst (HasAll history) (sym e)) i.0, i.1)
  replace-served ended history early late c d unserved e i =
      (All-replace (IsServed history) early late c d (subst (HasAll history) (sym e)) i.0, i.1)
  replace-served (sending msg) history early late c d unserved e i = (
    i.0,
    i.1,
    All-replace (IsServed history) early late c d (subst (HasAll history) (sym e)) i.2,
    i.3,
  )
  replace-served (appended msg) history early late c d unserved e i = (
    i.0,
    i.1,
    All-replace (IsDue i.0 msg) early late c d
        (subst (λ l. HasAll i.0 l ⊎ (l ≡ i.0 ++ msg ∷ [])) (sym e)) i.2,
    i.3,
  )

  nothing : (early late : List (Consumer Any)) (c : Consumer Any) → early ++ c ∷ late ≡ [] → ⊥
  nothing [] late c e = cc
  nothing (x ∷ early) late c e = cc

  replace-unserved :
      (p : Phase Any) (history : List Any) (early late : List (Consumer Any)) (c d : Consumer Any)
      (served : List (Consumer Any))
      → got d ≡ got c
      → InvAt p history served (early ++ c ∷ late)
      → InvAt p history served (early ++ d ∷ late)
  replace-unserved listening history early late c d served e i = absurd (nothing early late c i.1)
  replace-unserved ended history early late c d served e i = absurd (nothing early late c i.1)
  replace-unserved (appended msg) history early late c d served e i =
      absurd (nothing early late c i.3)
  replace-unserved (sending msg) history early late c d served e i = (
    i.0,
    i.1,
    i.2,
    All-replace (IsDue i.0 msg) early late c d
        (subst (λ l. HasAll i.0 l ⊎ (l ≡ i.0 ++ msg ∷ [])) (sym e)) i.3,
  )

  subscribe-InvAt :
      (p : Phase Any) (history : List Any) (served unserved : List (Consumer Any))
      → is_free p ≡ true
      → InvAt p history served unserved
      → InvAt p history (served ++ new_consumer history ∷ []) unserved
  unfolding is_free new_consumer
  subscribe-InvAt listening history served unserved f i =
      (All-append (IsServed history) served (new_consumer history ∷ []) i.0 (exactly, tt), i.1)
  subscribe-InvAt ended history served unserved f i =
      (All-append (IsServed history) served (new_consumer history ∷ []) i.0 (exactly, tt), i.1)
  subscribe-InvAt (sending msg) history served unserved f i = cc
  subscribe-InvAt (appended msg) history served unserved f i = (
    i.0,
    i.1,
    All-append (IsDue i.0 msg) served (new_consumer history ∷ []) i.2 (inr i.1, tt),
    i.3,
  )

  Step-Inv : {q r : MessageQueue Any} → Step q r → Inv q → Inv r
  Step-Inv {q} (appends msg e) i =
      let j = subst (λ p. InvAt p q.history q.served q.unserved) e i in
      (
        q.history,
        refl,
        All-map_of (IsServed q.history) (IsDue q.history msg) q.served (λ c h. inl h) j.0,
        j.1,
      )
  Step-Inv {q} (locks msg e) i =
      let j = subst (λ p. InvAt p q.history q.served q.unserved) e i in (j.0, j.1, tt, j.2)
  Step-Inv {q} (sends msg c d cs e u p) i =
      let j =
        subst (λ l. InvAt (sending msg) q.history q.served l) u
          (subst (λ p. InvAt p q.history q.served q.unserved) e i) in
      subst (λ p. InvAt p q.history (q.served ++ d ∷ []) cs) (sym e)
        (
          j.0,
          j.1,
          All-append (IsServed q.history) q.served (d ∷ []) j.2
              (subst (λ l. HasAll l (got d)) (sym j.1) (put-IsServed j.0 msg c d p j.3.0), tt),
          j.3.1,
        )
  Step-Inv {q} (unlocks msg e u) i =
      let j = subst (λ p. InvAt p q.history q.served q.unserved) e i in (j.2, u)
  Step-Inv {q} (ends e) i =
      let j = subst (λ p. InvAt p q.history q.served q.unserved) e i in
      (close_all-IsServed q.history q.served j.0, j.1)
  Step-Inv {q} (subscribes f l) i = subscribe-InvAt q.phase q.history q.served q.unserved f i
  Step-Inv {q} (takes early late c d e t) i =
      replace-served q.phase q.history early late c d q.unserved (got-take_from c.items c d refl t)
        (subst (λ l. InvAt q.phase q.history l q.unserved) e i)
  Step-Inv {q} (takes_unserved early late c d e t) i =
      replace-unserved q.phase q.history early late c d q.served (got-take_from c.items c d refl t)
        (subst (λ l. InvAt q.phase q.history q.served l) e i)

  Reach-Inv : {q r : MessageQueue Any} → Reach q r → Inv q → Inv r
  Reach-Inv here i = i
  Reach-Inv (then_step r s) i = Step-Inv s (Reach-Inv r i)

  -- The goroutine has no message in hand.
  abbrev pub is_idle : Phase Any → Bool
  is_idle listening = true
  is_idle ended = true
  is_idle (appended msg) = false
  is_idle (sending msg) = false

  idle-IsServed :
      (p : Phase Any) (history : List Any) (served unserved : List (Consumer Any))
      → is_idle p ≡ true
      → InvAt p history served unserved
      → All (IsServed history) served
  idle-IsServed listening history served unserved h i = i.0
  idle-IsServed ended history served unserved h i = i.0
  idle-IsServed (appended msg) history served unserved h i = cc
  idle-IsServed (sending msg) history served unserved h i = cc

  -- However the producer, the subscriptions and the readers interleave, whenever the goroutine has
  -- no message in hand each consumer has got all messages since the start, in order, whether it
  -- subscribed before or after them, and at most one of them twice, in a row.
  pub consumers-HasAll :
      {q : MessageQueue Any}
      → Reach new_queue q
      → is_idle q.phase ≡ true
      → All (IsServed q.history) q.served
  consumers-HasAll {q} r h =
      idle-IsServed q.phase q.history q.served q.unserved h (Reach-Inv r (tt, refl))

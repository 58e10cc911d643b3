-- ===== src/Budget/Rate/Credit.antt =====
-- What a bucket may have been charged so far: its limit, and what its refills have added.
use native.Mathlib.Nat.{mul-le-mul_left}
use budget_governor.Prelude.{ℕ, suc, ◌+◌, ◌*◌, ◌≤◌, ◌≡◌, true, Option, none, some, arith}
use budget_governor.Prelude.Int.{ℤ, pos, pos_part, ◌≤ℤ◌, ◌+ℤ◌, ◌-ℤ◌, int_laws}
use budget_governor.Prelude.Float.{Float, nought, ◌≼◌, IsOrdered}
use budget_governor.Budget.Types.{Limits}
use budget_governor.Budget.Script.{Hash, Redis, refill, elapsed_since, or_else}
use budget_governor.Budget.Script.Refill.{elapsed_since_nonneg}
use budget_governor.Budget.Rate.{IsClose}
use budget_governor.Budget.Rate.Rounding.{
  units-mono, units-less, refill-IsAdded, elapsed-le, charged-le,
}

-- The arithmetic of one charge, in whole numbers: what was charged and what is left do not exceed the
-- limit and the credit, and the credit is paid by the time that has passed.
pub pay-credit :
    (spent limit balance refilled tokens left : ℤ) (credit gain slack : ℕ)
    → spent +ℤ balance ≤ℤ limit +ℤ pos credit
    → refilled ≤ℤ balance +ℤ pos (gain + slack)
    → left ≤ℤ refilled -ℤ tokens +ℤ pos (slack + slack)
    → spent +ℤ tokens +ℤ left ≤ℤ limit +ℤ pos (credit + gain + 3 * slack)
pay-credit spent limit balance refilled tokens left credit gain slack h k l = grind int_laws

pub pay-time :
    (one credit gain slack rate ticks span span' fees : ℕ)
    → one * credit ≤ rate * span + fees
    → one * gain ≤ rate * ticks + one * slack
    → ticks + span ≤ span' + 2 * slack
    → one * (credit + gain + 3 * slack)
      ≤ rate * span' + (fees + (4 * (one * slack) + 2 * (rate * slack)))
pay-time one credit gain slack rate ticks span span' fees h k l =
    let m : rate * (ticks + span) ≤ rate * (span' + 2 * slack) = mul-le-mul_left rate l in
    grind arith

one_more : (n fee : ℕ) → suc n * fee ≡ n * fee + fee
one_more n fee = grind arith

-- The time of one refill, in whole numbers: what is counted anew is at most what is not yet counted.
stretch :
    (first now printed last : ℤ) (slack ticks span : ℕ)
    → first ≤ℤ now
    → now ≤ℤ printed +ℤ pos slack
    → pos ticks +ℤ last ≤ℤ now +ℤ pos slack
    → pos span +ℤ first ≤ℤ last +ℤ pos slack
    → (span' : ℕ) × (pos span' +ℤ first ≡ printed +ℤ pos slack) × (ticks + span ≤ span' + 2 * slack)
stretch first now printed last slack ticks span h k l m =
    let end : ℤ = printed +ℤ pos slack -ℤ first in
    let e : pos (pos_part end) ≡ end = grind int_laws in
    (pos_part end, rw e (grind int_laws), grind int_laws)

module _ {F : Type 0} ⦃d : Float F⦄ {r : Redis F} (close : IsClose r) (limits : Limits F)
    (first : F) where
  open d use {lt, of_int, sub, mul}
  open close use {units, one, slack, tostring-le, le-tostring, incr-le}

  abbrev pub limit : F
  limit = of_int limits.token_limit

  abbrev pub rate : ℕ
  rate = pos_part (units limits.refill_tokens_per_sec)

  -- What rounding may add in one write, in parts of a smallest number.
  abbrev pub fee : ℕ
  fee = 4 * (one * slack) + 2 * (rate * slack)

  -- The span is the time from the first until the last refill that is stored.
  abbrev pub IsStamped : F → Option F → ℕ → Type 0
  IsStamped clock none span = span ≡ 0
  IsStamped clock (some t) span =
      (units t ≤ℤ units clock +ℤ pos slack) × (pos span +ℤ units first ≡ units t +ℤ pos slack)

  -- The hash after some writes, the last of them at the time of the clock.
  pub record IsPaid (clock : F) (spent : ℤ) (writes : ℕ) (h : Hash F) : Type 0 where
    pub credit : ℕ
    pub span : ℕ
    pub begun : units first ≤ℤ units clock
    pub within : spent +ℤ units (or_else h.tokens_remaining limit) ≤ℤ units limit +ℤ pos credit
    pub paid : one * credit ≤ rate * span + writes * fee
    pub stamped : IsStamped clock h.last_refill_ts span

  module _ (laws : IsOrdered F) where
    ticks-span :
        (clock now : F) (last : Option F) (span : ℕ)
        → clock ≼ now
        → units first ≤ℤ units clock
        → IsStamped clock last span
        → let ticks = pos_part (units (elapsed_since now (or_else last now))) in
          (span' : ℕ) × IsStamped now (some (r.tostring now)) span'
          × (ticks + span ≤ span' + 2 * slack)
    ticks-span clock now none span h k e =
        let (span', e', l) =
          stretch (units first) (units now) (units (r.tostring now)) (units now) slack _ span
            (omega (arith, k, units-mono close clock now h)) (le-tostring now)
            (elapsed-le close now now (grind int_laws))
            (rw e (grind (int_laws, units-mono close clock now h))) in
        (span', (tostring-le now, e'), l)
    ticks-span clock now (some t) span h k (below, e) =
        let after = units-mono close clock now h in
        let (span', e', l) =
          stretch (units first) (units now) (units (r.tostring now)) (units t) slack _ span
            (omega (arith, k, after)) (le-tostring now)
            (elapsed-le close now t (grind (int_laws, after))) (rw e (omega arith)) in
        (span', (tostring-le now, e'), l)

    -- A charge keeps the account, whatever the dollars.
    pub charge-IsPaid :
        (clock now tokens : F) (spent : ℤ) (writes : ℕ) (h : Hash F) (usd : F) (ttl : Option ℤ)
        → lt nought limit ≡ true
        → nought ≼ limits.refill_tokens_per_sec
        → clock ≼ now
        → IsPaid clock spent writes h
        → let elapsed = elapsed_since now (or_else h.last_refill_ts now) in
          let new =
            refill limit (or_else h.tokens_remaining limit) elapsed limits.refill_tokens_per_sec in
          IsPaid now (spent +ℤ units tokens) (suc writes) (record {
            tokens_remaining = some (r.tostring (sub new tokens));
            usd_remaining = some usd;
            last_refill_ts = some (r.tostring now);
            ttl = ttl;
          })
    charge-IsPaid clock now tokens spent writes h usd ttl pos_limit pos_rate later a =
        let elapsed = elapsed_since now (or_else h.last_refill_ts now) in
        let balance = or_else h.tokens_remaining limit in
        let new = refill limit balance elapsed limits.refill_tokens_per_sec in
        let gain = pos_part (units (mul elapsed limits.refill_tokens_per_sec)) in
        let (added, gained) =
          refill-IsAdded close limit balance elapsed limits.refill_tokens_per_sec pos_limit
            (elapsed_since_nonneg laws now (or_else h.last_refill_ts now)) pos_rate in
        let (span', stamped', l) =
          ticks-span clock now h.last_refill_ts a.span later a.begun a.stamped in
        record {
          credit = a.credit + gain + 3 * slack;
          span = span';
          begun = omega (arith, a.begun, units-mono close clock now later);
          within =
              pay-credit spent (units limit) (units balance) (units new) (units tokens) _ a.credit
                gain slack a.within added (charged-le close new tokens);
          paid =
              rw (one_more writes fee) (
                pay-time one a.credit gain slack rate _ a.span span' (writes * fee) a.paid gained
                  l);
          stamped = stamped';
        }

    missing-le :
        (o : Option F)
        → lt nought limit ≡ true
        → units (or_else o nought) ≤ℤ units (or_else o limit)
    missing-le none e = units-less close nought limit e
    missing-le (some x) e = omega arith

    -- So does a correction; a balance that is not stored counts from zero.
    pub correct-IsPaid :
        (clock tokens : F) (spent : ℤ) (writes : ℕ) (h : Hash F) (usd : Option F)
        → lt nought limit ≡ true
        → IsPaid clock spent writes h
        → IsPaid clock (spent -ℤ units tokens) (suc writes) (record h {
          tokens_remaining = some (r.incr (or_else h.tokens_remaining nought) tokens);
          usd_remaining = usd;
        })
    correct-IsPaid clock tokens spent writes h usd e a = record {
      credit = a.credit + slack;
      span = a.span;
      begun = a.begun;
      within = grind (
        int_laws,
        a.within,
        incr-le (or_else h.tokens_remaining nought) tokens,
        missing-le h.tokens_remaining e,
      );
      paid = rw (one_more writes fee) (grind (arith, a.paid));
      stamped = a.stamped;
    }

    -- And so does a correction by nothing, which is not written.
    pub idle-IsPaid :
        (clock tokens : F) (spent : ℤ) (writes : ℕ) (h : Hash F) (usd : Option F)
        → units tokens ≡ pos 0
        → IsPaid clock spent writes h
        → IsPaid clock (spent -ℤ units tokens) (suc writes) (record h { usd_remaining = usd })
    idle-IsPaid clock tokens spent writes h usd e a = record {
      credit = a.credit;
      span = a.span;
      begun = a.begun;
      within = rw e (grind (int_laws, a.within));
      paid = rw (one_more writes fee) (omega (arith, a.paid));
      stamped = a.stamped;
    }

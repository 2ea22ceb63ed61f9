-- ===== src/Expr/Eval.antt =====
-- `eval_expression` of src/tcpkali_expr.c. Its effect is the bytes it leaves at `*buf_p`, the
-- `long` that it stores, the expression with its caches, and the state `W` of the callback and of
-- the generator. Where `*buf_p` is NULL `eval_new` gives the size of the buffer to allocate.
pub mod Fits
pub mod Good
pub mod Total
pub mod Again
use tcpkali.Base.{
  ℕ, zero, suc, ◌+◌, ◌-◌, ◌*◌, ◌/◌, ◌%◌, ◌^◌, Bool, true, false, ◌&&◌, Bytes, List, [], ◌∷◌, ◌++◌,
  Option, none, some, take, length, ltb, leb, ◌==◌, if◌then◌else◌,
}
use tcpkali.WebSocket.Frame.{Side, Opcode, frame_header, max_frame_hdr_size}
use tcpkali.Regex.{Regex}
use tcpkali.Regex.Eval as Random
use tcpkali.Regex.Build.{add_size}
use tcpkali.Expr.{
  ℤ, pos, negsuc, Scope, global_fixed, per_connection, per_message, Meta, WsFrame, Expr, expr, Node,
  text, raw, ws_frame, concat, modulo, connection_ptr, connection_uid, regex, message_marker, meta,
  estimate, scope,
}
use tcpkali.Expr.Decimal.{decimal, decimal_long}

-- `refused` is the result -1. `fault` is what has no meaning in the source: a failed assertion, a
-- division by zero, or a copy behind the end of a buffer.
pub data Outcome : Type 0 where
  wrote : Bytes → Outcome
  refused fault : Outcome

-- The kinds that are left to the callback.
pub data Field : Type 0 where
  ptr uid marker : Field

-- `*output_value` is written where `value` is not `none`.
pub record Answer (W : Type 0) : Type 0 where
  pub outcome : Outcome
  pub value : Option ℤ
  pub world : W

pub record Result (E W : Type 0) : Type 0 where
  pub part : E
  pub outcome : Outcome
  pub value : Option ℤ
  pub world : W

-- What the `switch` leaves: with `returned` it was left by `return`.
pub record Switch (W : Type 0) : Type 0 where
  pub node : Node
  pub dynamic_scope : Scope
  pub outcome : Outcome
  pub value : Option ℤ
  pub world : W
  pub returned : Bool

abbrev pub from_regex : Random.Outcome → Outcome
from_regex (Random.wrote s) = wrote s
from_regex Random.refused = refused
from_regex Random.fault = fault

abbrev pub signed : ℤ → ℕ → ℤ
signed (pos n) k = pos k
signed (negsuc n) zero = pos 0
signed (negsuc n) (suc k) = negsuc k

abbrev pub magnitude : ℤ → ℕ
magnitude (pos n) = n
magnitude (negsuc n) = suc n

abbrev pub minus_one : ℤ → Bool
minus_one (pos n) = false
minus_one (negsuc n) = n == 0

abbrev pub least_long : ℤ → Bool
least_long (pos n) = false
least_long (negsuc n) = n == 2 ^ 63 - 1

-- `v % m`, which rounds to 0 and has the sign of `v`; `none` where it has no meaning.
abbrev pub remainder : ℤ → ℤ → Option ℤ
remainder v m =
    if magnitude m == 0
    then none
    else if minus_one m && least_long v
    then none
    else some (signed v (magnitude v % magnitude m))

-- What `snprintf` puts into `size` bytes, by the result's own measure: the text and, where it fills
-- the buffer, a zero in the place of its last character. `none` where the text is longer.
abbrev pub printed : Bytes → ℕ → Option Bytes
printed s size =
    if ltb size (length s)
    then none
    else if length s == size
    then some (take (size - 1) s ++ (if size == 0 then [] else 0 ∷ []))
    else some s

abbrev pub value_of : Option ℤ → ℤ
value_of none = pos 0
value_of (some v) = v

-- The later write to `*value` stays.
abbrev pub latest : Option ℤ → Option ℤ → Option ℤ
latest v none = v
latest v (some v') = some v'

-- `size1 + size2`, where the second part's -1 is not tested for: the last byte of the first part is
-- not counted then.
abbrev pub joined : Bytes → Outcome → Outcome
joined a (wrote b) = wrote (a ++ b)
joined [] refused = refused
joined (c ∷ a) refused = wrote (take (length a) (c ∷ a))
joined a fault = fault

-- The end of `eval_expression`: what is evaluated once per connection is kept in `res_buf`. The size
-- is unsigned, so -1 counts as positive.
abbrev pub keep : Scope → Outcome → Option Bytes → Option Bytes × Outcome
keep per_connection (wrote []) res = (res, wrote [])
keep per_connection (wrote (c ∷ s)) res = (some (c ∷ s), wrote (c ∷ s))
keep per_connection refused res = (res, fault)
keep per_connection fault res = (res, fault)
keep other outcome res = (res, outcome)

-- The scope behind the evaluation of a remainder.
abbrev pub wider : Scope → Scope → Scope
wider per_connection sc = per_connection
wider other sc = sc

module _ {W : Type 0} where
  abbrev pub leave : Meta → Option Bytes × Outcome → Switch W → Result Expr W
  leave m (res, outcome) s = record {
    part =
        expr
          (record { estimate_size = m.estimate_size; dynamic_scope = s.dynamic_scope; res = res })
          s.node;
    outcome = outcome;
    value = s.value;
    world = s.world;
  }

  abbrev pub remember : Meta → Switch W → Result Expr W
  remember m s =
      leave m (if s.returned then (m.res, s.outcome) else keep s.dynamic_scope s.outcome m.res) s

  abbrev pub switch : Node → Scope → Outcome → Option ℤ → W → Bool → Switch W
  switch n sc outcome value w returned = record {
    node = n;
    dynamic_scope = sc;
    outcome = outcome;
    value = value;
    world = w;
    returned = returned;
  }

  abbrev pub print_part : Scope → Expr → ℤ → ℤ → W → Option Bytes → Switch W
  print_part sc e m v w none = switch (modulo e m) sc refused none w true
  print_part sc e m v w (some s) =
      switch (modulo e m) (wider (scope e) sc) (wrote s) (some v) w false

  abbrev pub divide_part : Scope → ℕ → Expr → ℤ → W → Option ℤ → Switch W
  divide_part sc size e m w none = switch (modulo e m) sc fault none w true
  divide_part sc size e m w (some v) = print_part sc e m v w (printed (decimal_long v) size)

  -- The case of EXPR_MODULO behind the call. The outcome of the call is ignored, and its value is 0
  -- if it stored none.
  abbrev pub modulo_part : Scope → ℕ → ℤ → Expr → Outcome → Option ℤ → W → Switch W
  modulo_part sc size m e fault v w = switch (modulo e m) sc fault none w true
  modulo_part sc size m e outcome v w = divide_part sc size e m w (remainder (value_of v) m)

  -- The case of EXPR_CONCAT behind the first call.
  abbrev pub concat_part :
      Scope → ℕ → ℕ → Expr → (ℕ → ℕ → W → Result Expr W) → Expr → Outcome → Option ℤ → W → Switch W
  concat_part sc at size second next e (wrote a) v w =
      let r = next (at + length a) (size - length a) w in
      switch (concat e r.part) sc (joined a r.outcome) (latest v r.value) r.world false
  concat_part sc at size second next e outcome v w = switch (concat e second) sc outcome v w true

  abbrev pub ask : Node → Scope → Answer W → Switch W
  ask n sc a = switch n sc a.outcome a.value a.world false

  abbrev pub again : Expr → Bytes → W → Result Expr W
  again e s w = record { part = e; outcome = wrote s; value = none; world = w }

  abbrev pub overrun : Expr → W → Result Expr W
  overrun e w = record { part = e; outcome = fault; value = none; world = w }

  -- What was kept for the connection is copied without a test of the size of the buffer.
  abbrev pub cached : Expr → Scope → ℕ → Option Bytes → W → Result Expr W → Result Expr W
  cached e per_connection size (some s) w fresh =
      if ltb size (length s) then overrun e w else again e s w
  cached e sc size res w fresh = fresh

module _ {W : Type 0} (callback : Field → ℕ → ℕ → W → Answer W) (rand : W → ℕ → ℕ × W)
    (side : Side) where
  unfoldable mutual
    -- `at` is the offset of `*buf_p` in the buffer of the outermost call.
    pub eval : Expr → ℕ → ℕ → W → Result Expr W
    eval (expr m n) at size w =
        cached (expr m n) m.dynamic_scope size m.res w (remember m (eval_node n m at size w))

    pub eval_node : Node → Meta → ℕ → ℕ → W → Switch W
    eval_node (text s) m at size w =
        if ltb size (length s)
        then switch (text s) m.dynamic_scope refused none w true
        else switch (text s) m.dynamic_scope (wrote s) none w false
    eval_node (raw e) m at size w =
        let r = eval e at size w in
        switch (raw r.part) m.dynamic_scope r.outcome r.value r.world false
    eval_node (ws_frame f) m at size w =
        if ltb size m.estimate_size
        then switch (ws_frame f) m.dynamic_scope refused none w true
        else if ltb size max_frame_hdr_size
        then switch (ws_frame f) m.dynamic_scope fault none w true
        else switch (ws_frame f) m.dynamic_scope
            (wrote (frame_header side f.opcode f.rsvs f.fin (length f.bytes) ++ f.bytes)) none w
            false
    eval_node (concat e e') m at size w =
        let r = eval e at size w in
        if ltb size (add_size (estimate e) (estimate e'))
        then switch (concat e e') m.dynamic_scope refused none w true
        else concat_part m.dynamic_scope at size e' (eval e') r.part r.outcome r.value r.world
    eval_node (modulo e k) m at size w =
        let r = eval e at size w in
        modulo_part m.dynamic_scope size k r.part r.outcome r.value r.world
    eval_node connection_ptr m at size w =
        ask connection_ptr m.dynamic_scope (callback ptr at size w)
    eval_node connection_uid m at size w =
        ask connection_uid m.dynamic_scope (callback uid at size w)
    eval_node message_marker m at size w =
        ask message_marker m.dynamic_scope (callback marker at size w)
    eval_node (regex re) m at size w =
        let r = Random.eval rand re size w in
        switch (regex re) m.dynamic_scope (from_regex r.0) none r.1 false

  abbrev pub eval_new : Expr → ℕ → W → Result Expr W
  eval_new e size w = eval e 0 (if size == 0 then estimate e else size) w

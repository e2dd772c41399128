-- ===== src/Split/Stream/Whole.antt =====
-- `streamStatements` comes to an end.
use treeman.Prelude.{
  ℕ, zero, suc, ◌≤◌, ◌<◌, Bool, true, false, not, ◌&&◌, [], ◌++◌, Option, none, some, if◌then◌else◌,
  length, arith, Bool-cases, inl, inr,
}
use treeman.Prelude.Text.{Bytes, codes}
use treeman.Split.{Dialect, is_mysql, Splitter, read_line}
use treeman.Split.Progress.{length-read_line, read_line-shorter}
use treeman.Split.Stream.{
  Next, found, at_eof, failed, no_fuel, next, Block, block, cut_off, spent, Called, returned,
  raised, copy_lines, ends_block, copy_data, Sink, Outcome, done, stopped, out_of_fuel, or_stop,
  copied, deliver, stream_loop, stream_statements,
}
use treeman.Split.Stream.Ends.{Advances, next-Advances, impossible}

-- What a data block leaves, of so many bytes.
abbrev Leaves : ℕ → Block → Type 0
Leaves n (block out rest) = length rest ≤ n
Leaves n (cut_off out) = Unit {0}
Leaves n spent = ⊥

Leaves-mono : (m n : ℕ) (x : Block) → m ≤ n → Leaves m x → Leaves n x
Leaves-mono m n (block out rest) l h = omega arith
Leaves-mono m n (cut_off out) l h = tt
Leaves-mono m n spent l h = h

-- The lines of a block are read within the fuel.
copy_lines-rest : (f : ℕ) (out r : Bytes) → length r < f → Leaves (length r) (copy_lines f out r)
unfolding copy_lines
copy_lines-rest zero out r h = impossible h
copy_lines-rest (suc f) out r h =
    let (line, rest, whole) = read_line r in
    elim (Bool-cases whole) [
      | inr e ↦ rw e tt
      | inl e ↦
          (let l = read_line-shorter r e in
            elim (Bool-cases (ends_block line)) [
              | inl b ↦ rw (e, b) (omega (arith, l))
              | inr b ↦
                  rw (e, b)
                    (Leaves-mono (length rest) (length r) _ (omega (arith, l))
                      (copy_lines-rest f (out ++ line) rest (omega (arith, l, h))))
            ])
    ]

copy_data-rest : (r : Bytes) → Leaves (length r) (copy_data r)
unfolding copy_data
copy_data-rest r =
    let (line, rest, whole) = read_line r in
    elim (Bool-cases whole) [
      | inr e ↦ rw e tt
      | inl e ↦ rw e (
          Leaves-mono (length rest) (length r) _ (length-read_line r)
            (copy_lines-rest (suc (length rest)) [] rest (omega arith)))
    ]

-- The stream has an end: the callbacks saw it all, or one stopped it.
abbrev pub Ends : {A : Type 0} → Outcome A → Type 0
Ends (done a) = Unit {0}
Ends (stopped a) = Unit {0}
Ends out_of_fuel = ⊥

module _ {A : Type 0} (is_copy : Bytes → Bool) (sink : Sink A) where
  or_stop-Ends : (k : A → Outcome A) (x : Called A) → ((b : A) → Ends (k b)) → Ends (or_stop k x)
  or_stop-Ends k (raised b) h = tt
  or_stop-Ends k (returned b) h = h b

  copied-Ends :
      (n : ℕ) (a : A) (stmt : Bytes) (s : Splitter) (k : A → Splitter → Outcome A)
      (on : Option (A → Bytes → Bytes → Bool → Called A)) (x : Block)
      → Leaves n x
      → ((b : A) (t : Splitter) → length t.r ≤ n → Ends (k b t))
      → Ends (copied a stmt s k on x)
  copied-Ends n a stmt s k none x h e = tt
  copied-Ends n a stmt s k (some on_copy) (block bytes rest) h e =
      or_stop-Ends _ (on_copy a stmt bytes false) (λ b. e b (record s { r = rest }) h)
  copied-Ends n a stmt s k (some on_copy) (cut_off bytes) h e =
      or_stop-Ends _ (on_copy a stmt bytes true) (λ b. e b (record s { r = [] }) (omega arith))
  copied-Ends n a stmt s k (some on_copy) spent h e = h

  if-Ends : (b : Bool) (x y : Outcome A) → Ends x → Ends y → Ends (if b then x else y)
  if-Ends true x y hx hy = hx
  if-Ends false x y hx hy = hy

  deliver-Ends :
      (n : ℕ) (a : A) (k : A → Splitter → Outcome A) (x : Next)
      → Advances n x
      → ((b : A) (t : Splitter) → length t.r < n → Ends (k b t))
      → Ends (deliver is_copy sink a k x)
  unfolding deliver
  deliver-Ends n a k at_eof h e = tt
  deliver-Ends n a k (failed x) h e = tt
  deliver-Ends n a k no_fuel h e = h
  deliver-Ends n a k (found stmt s) h e =
      if-Ends (not (is_mysql s.d) && is_copy stmt) _ _
        (copied-Ends (length s.r) a stmt s k sink.on_copy (copy_data s.r) (copy_data-rest s.r)
          (λ b t l. e b t (omega arith)))
        (or_stop-Ends _ (sink.on_stmt a stmt) (λ b. e b s h))

  stream_loop-Ends :
      (f : ℕ) (a : A) (s : Splitter) → length s.r < f → Ends (stream_loop is_copy sink f a s)
  unfolding stream_loop
  stream_loop-Ends zero a s h = impossible h
  stream_loop-Ends (suc f) a s h =
      deliver-Ends (length s.r) a (λ b t. stream_loop is_copy sink f b t) (next s)
        (next-Advances s s.r) (λ b t l. stream_loop-Ends f b t (omega arith))

  -- `streamStatements` comes to an end on every input, in both dialects, whatever the callbacks do
  -- and whether the input ends in EOF or in a read error: fuel of one more than the bytes is enough,
  -- for the stream, for every statement in it, and for the lines of every COPY block.
  pub stream_statements-Ends :
      (a : A) (broken : Bool) (d : Dialect) (r : Bytes)
      → Ends (stream_statements is_copy sink a broken d r)
  unfolding stream_statements
  stream_statements-Ends a broken d r =
      stream_loop-Ends (suc (length r)) a
        (record { r = r; broken = broken; d = d; delim = codes ";"; buf = [] }) (omega arith)

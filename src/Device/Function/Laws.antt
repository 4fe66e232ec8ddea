-- ===== src/Device/Function/Laws.antt =====
-- That the pool never panics, that INFO fits, and the order in which connections are accepted.
use upc.Common.{ℕ, zero, suc, ◌+◌, ◌-◌, ◌≤◌, ◌≡◌, refl, ltb, if◌then◌else◌, some, arith}
use upc.Device.Function.{BytesPool, chunk, prepare_in}

module _ (with_capacity : ℕ → ℕ) (enough : (n : ℕ) → n ≤ with_capacity n) where
  -- With an allocator that gives at least what is asked for, a chunk of the size asked for is always
  -- there, and it is cut from the buffer at hand, without an allocation, where the buffer has it.
  pub chunk_given :
      (size : ℕ) (p : BytesPool)
      → (q : BytesPool) × (chunk with_capacity size p ≡ some (size, q))
        × (q.pool_size ≡ p.pool_size)
        × (size ≤ p.capacity → q.capacity + size ≡ p.capacity)
  unfolding chunk
  chunk_given size p =
      let big = enough (if ltb p.pool_size size then size else p.pool_size) in
      (record p { capacity = capacity - size }, ground arith, refl, ground arith)
    where
      capacity : ℕ
      capacity =
          if ltb p.capacity size
          then with_capacity (if ltb p.pool_size size then size else p.pool_size)
          else p.capacity

  -- With an allocator that gives at least the capacity asked for, preparing the receive transfers
  -- never runs into the panic of a buffer split beyond its capacity, whatever number of stale
  -- transfers it drains.
  pub prepare_in_total :
      (size stale : ℕ) (p : BytesPool)
      → (q : BytesPool) × (prepare_in with_capacity size stale p ≡ some q)
  unfolding prepare_in
  prepare_in_total size zero p =
      let (q, given, _, _) = chunk_given size p in (q, rw (prepare_in, given) refl)
  prepare_in_total size (suc stale) p =
      let (q, given, _, _) = chunk_given size p in
      let (r, total) = prepare_in_total size stale q in (r, rw (prepare_in, given) total)

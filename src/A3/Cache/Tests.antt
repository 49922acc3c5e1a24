-- ===== src/A3/Cache/Tests.antt =====
-- Runs of the buffer cache.
use ecse_427_simple_shell_cr.Base.{
  ℕ, ◌≡◌, false, some, [], ◌∷◌, ◌==◌, if◌then◌else◌, replicate, length-replicate, arith,
}
use ecse_427_simple_shell_cr.A3.Cache.{
  Block, Entry, Cache, buffer_cache_size, buffer_cache_init, buffer_cache_read, buffer_cache_write,
  buffer_cache_close,
}
use ecse_427_simple_shell_cr.A3.Cache.Represents.{Represents}
use ecse_427_simple_shell_cr.A3.Cache.Refine.{
  buffer_cache_read-Represents, buffer_cache_write-Represents,
}
use ecse_427_simple_shell_cr.A3.Cache.Close.{
  buffer_cache_init-Represents, buffer_cache_close-device,
}

abbrev blank : Entry
blank = record { occupied = false; disk_sector = 0; buffer = []; dirty = false; access = false }

-- every sector has its number as its byte
abbrev disk : ℕ → Block
disk s = s ∷ []

abbrev raw : Cache
raw = record { entries = replicate buffer_cache_size blank; clock = 0; device = disk }

started-Represents : Represents (buffer_cache_init raw) disk
started-Represents =
    buffer_cache_init-Represents raw (length-replicate buffer_cache_size blank) (omega arith)

buffer_cache_read-Represents_example :
    (c' : Cache) × (buffer_cache_read 5 (buffer_cache_init raw) ≡ some (5 ∷ [], c'))
    × Represents c' disk
buffer_cache_read-Represents_example =
    buffer_cache_read-Represents 5 (buffer_cache_init raw) disk started-Represents

buffer_cache_write-Represents_example :
    (c' : Cache) × (buffer_cache_write 5 (9 ∷ []) (buffer_cache_init raw) ≡ some c')
    × Represents c' (λ t. if t == 5 then 9 ∷ [] else disk t)
buffer_cache_write-Represents_example =
    buffer_cache_write-Represents 5 (9 ∷ []) (buffer_cache_init raw) disk started-Represents

write_five :
    (c' : Cache) × (buffer_cache_write 5 (9 ∷ []) (buffer_cache_init raw) ≡ some c')
    × Represents c' (λ t. if t == 5 then 9 ∷ [] else disk t)
write_five =
    buffer_cache_write-Represents 5 (9 ∷ []) (buffer_cache_init raw) disk started-Represents

buffer_cache_close-device_example : (buffer_cache_close write_five.0).device 5 ≡ 9 ∷ []
buffer_cache_close-device_example =
    buffer_cache_close-device write_five.0 (λ t. if t == 5 then 9 ∷ [] else disk t) write_five.2 5

-- ===== src/Download/Whole.antt =====
-- What the tasks of a download leave together.
use small_program.Base.{
  ℕ, ◌+◌, ◌-◌, ◌<◌, ◌≤◌, ◌≡◌, ap, ◌∙◌, List, [], ◌∷◌, true, ltb, leb, ◌&&◌, if◌then◌else◌, arith,
  length,
}
use small_program.Download.{CurlHttpTask, Stream, byte_at, run, Job, thread_func}
use small_program.Download.Writes.{joined, HasBytes, run-overwrite}

-- Tasks whose ranges follow each other, to each of which its part of the source arrives.
pub data Jobs (source : ℕ → ℕ) : ℕ → List Job → ℕ → Type 0 where
  none_left : (n : ℕ) → Jobs source n [] n
  job :
      {t : CurlHttpTask} {pieces : List (List ℕ)} {jobs : List Job} {end : ℕ}
      → t.ranged ≡ true
      → t.start_pos ≤ t.stop_pos
      → HasBytes pieces
      → t.start_pos + length (joined pieces) ≡ t.stop_pos + 1
      → ((j : ℕ)
          → j < length (joined pieces)
          → byte_at (joined pieces) j ≡ source (t.start_pos + j))
      → Jobs source (t.stop_pos + 1) jobs end
      → Jobs source t.start_pos (record { task = t; pieces = pieces; code = 0 } ∷ jobs) end

pub Jobs-le :
    (source : ℕ → ℕ) (start end : ℕ) (jobs : List Job) → Jobs source start jobs end → start ≤ end
Jobs-le source _ _ _ (none_left n) = omega arith
Jobs-le source _ end _ (job {t} {jobs = jobs} r h full e same js) =
    omega (arith, Jobs-le source (t.stop_pos + 1) end jobs js)

part :
    (source content : ℕ → ℕ) (start stop end i : ℕ) (bytes : List ℕ)
    → start + length bytes ≡ stop + 1
    → stop + 1 ≤ end
    → ((j : ℕ) → j < length bytes → byte_at bytes j ≡ source (start + j))
    → (if leb (stop + 1) i && ltb i end
        then source i
        else (if leb start i && leb i stop then byte_at bytes (i - start) else content i))
      ≡ (if leb start i && ltb i end then source i else content i)
part source content start stop end i bytes e h same = ground (arith, own)
  where
    own : start ≤ i → i ≤ stop → byte_at bytes (i - start) ≡ source i
    own low high = same (i - start) (omega (arith, e)) ∙ ap source (omega arith)

-- If the tasks in the queue have ranges that follow each other, and to each the bytes of its
-- range arrive in pieces that are not empty, from a transfer that ends without an error, then a
-- thread that takes all the tasks leaves the source's bytes at every offset of the ranges
-- together, and every other offset of the file as it was.
pub thread_func_whole :
    (source : ℕ → ℕ) (start end : ℕ) (jobs : List Job) (f : Stream) (i : ℕ)
    → Jobs source start jobs end
    → (thread_func f jobs).content i ≡ (if leb start i && ltb i end then source i else f.content i)
unfolding thread_func
thread_func_whole source _ _ _ f i (none_left n) = ground arith
thread_func_whole source _ end _ f i (job {t} {pieces} {jobs} r h full e same js) =
    let (ended, filled) = run-overwrite t f pieces i r h full e in
    rw ended (
      thread_func_whole source (t.stop_pos + 1) end jobs (run t f pieces 0).1 i js
      ∙ ap (λ c. if leb (t.stop_pos + 1) i && ltb i end then source i else c) filled
      ∙ part source f.content t.start_pos t.stop_pos end i (joined pieces) e
          (Jobs-le source (t.stop_pos + 1) end jobs js) same)

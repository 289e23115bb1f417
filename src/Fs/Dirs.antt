-- ===== src/Fs/Dirs.antt =====
-- Setting nodes: the laws of the map, and what the creation of directories leaves alone.
use mathlib.Core.Path.{fun_ext}
use bitprotector.Base.{◌≡◌, ◌≢◌, Option, arith, text_eq_iff, text_eq_refl, text_eq_ne}
use bitprotector.Fs.Defs.{FilePath, Node, Fs, set_node}

pub node-set_self : (p : FilePath) (n : Option Node) (fs : Fs) → (set_node p n fs).node p ≡ n
node-set_self p n fs = rw (text_eq_refl p)

pub node-set_ne :
    (p q : FilePath) (n : Option Node) (fs : Fs) → p ≢ q → (set_node p n fs).node q ≡ fs.node q
node-set_ne p q n fs h = rw (text_eq_ne p q h)

pub set_node-set_node :
    (p : FilePath) (m n : Option Node) (fs : Fs) → set_node p n (set_node p m fs) ≡ set_node p n fs
set_node-set_node p m n fs = λ i. record {
  node =
      fun_ext {f = (set_node p n (set_node p m fs)).node} {g = (set_node p n fs).node}
        (λ q. pointwise q) i;
  can_write = fs.can_write;
  can_read = fs.can_read;
  read_error = fs.read_error;
  has_room = fs.has_room;
}
  where
    pointwise : (q : FilePath) → (set_node p n (set_node p m fs)).node q ≡ (set_node p n fs).node q
    pointwise q = ground arith

pub set_node_same :
    (p : FilePath) (n : Option Node) (fs : Fs) → fs.node p ≡ n → set_node p n fs ≡ fs
set_node_same p n fs h = λ i. record {
  node = fun_ext {f = (set_node p n fs).node} {g = fs.node} (λ q. pointwise q) i;
  can_write = fs.can_write;
  can_read = fs.can_read;
  read_error = fs.read_error;
  has_room = fs.has_room;
}
  where
    pointwise : (q : FilePath) → (set_node p n fs).node q ≡ fs.node q
    pointwise q = ground (arith, text_eq_iff p q)

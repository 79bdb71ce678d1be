-- ===== src/Interp/System.antt =====
-- The arms of the match of `run_function` (crates/ygg-interp/src/lib.rs) that call the kernel.
use yggdrasil.Bytecode.Op.{Op}
use yggdrasil.Term.{pid, as_atom, is_boxed, kind}
use yggdrasil.Interp.Api.{badarg, exit, SystemApi, Act, ◌>>=◌, ◌>>◌, lift, pure, fail, call, tell}
use yggdrasil.Interp.Words.{natural}
use yggdrasil.Interp.Fetch.{u8, u32, get_reg, set_reg, get_int}
use yggdrasil.Interp.Allocate.{check}
use yggdrasil.Prelude.{not, ok_or}

module _ {W : Type 0} (api : SystemApi W) where
  -- processes and messages
  unfoldable pub run_process : Op → Act W (Unit {0})
  unfolding u8 u32 get_reg get_int set_reg is_boxed pid as_atom
  run_process Op.spawn = do
    rd ← u8
    callee ← u32
    ra ← u8
    arg ← get_reg ra
    check (not (is_boxed arg))
    p ← call (api.spawn callee arg)
    set_reg rd (pid p)
  run_process Op.send = do
    rt ← u8
    rm ← u8
    to ← get_reg rt
    msg ← get_reg rm
    call (api.send to msg)
  run_process Op.recv = do rd ← u8; v ← call api.recv; set_reg rd v
  run_process Op.print = do rs ← u8; v ← get_reg rs; tell (api.print v)
  run_process Op.exit_atom = do
    rs ← u8
    t ← get_reg rs
    a ← lift (ok_or (as_atom t) badarg)
    fail (exit a)
  run_process Op.sleep_ms = do
    rm ← u8
    v ← get_int rm
    ms ← lift (ok_or (natural v) badarg)
    tell api.safepoint
    tell (api.sleep_ms ms)
  run_process _ = pure tt

  -- ports and kernel buffers
  unfoldable pub run_port : Op → Act W (Unit {0})
  unfolding run_process u8 get_reg get_int set_reg
  run_port Op.port_open = do rd ← u8; kind ← u8; p ← call (api.port_open kind); set_reg rd p
  run_port Op.port_submit = do
    rp ← u8
    o ← u8
    ra ← u8
    rt ← u8
    port ← get_reg rp
    arg0 ← get_reg ra
    tag ← get_reg rt
    call (api.port_submit port o arg0 tag)
  run_port Op.port_submit2 = do
    rp ← u8
    ro ← u8
    ra0 ← u8
    ra1 ← u8
    rt ← u8
    port ← get_reg rp
    o ← get_reg ro
    a0 ← get_reg ra0
    a1 ← get_reg ra1
    tag ← get_reg rt
    call (api.port_submit2 port o a0 a1 tag)
  run_port Op.buf_write = do
    rd ← u8
    rb ← u8
    ro ← u8
    rs ← u8
    buf ← get_reg rb
    off ← get_reg ro
    bin ← get_reg rs
    v ← call (api.buf_write buf off bin)
    set_reg rd v
  run_port Op.buf_new = do
    rd ← u8
    rs ← u8
    size ← get_reg rs
    v ← call (api.buf_new size)
    set_reg rd v
  run_port Op.buf_read = do
    rd ← u8
    rb ← u8
    ro ← u8
    rl ← u8
    buf ← get_reg rb
    off ← get_reg ro
    len ← get_reg rl
    v ← call (api.buf_read buf off len)
    set_reg rd v
  run_port Op.buf_to_bin = do
    rd ← u8
    rs ← u8
    id ← get_int rs
    b ← call (api.buf_to_bin id)
    set_reg rd b
  run_port Op.bin_to_buf = do
    rd ← u8
    rs ← u8
    b ← get_reg rs
    id ← call (api.bin_to_buf b)
    set_reg rd id
  run_port o = run_process o

-- ===== src/Connection/Close.antt =====
-- Connection.cpp, lines 80 to 89: the end of a connection.
use net_module.Base.{true, Result, ok, ◌>>=◌}
use net_module.System.{EpollApi}
use net_module.Channel.{call}
use net_module.Epoller.{remove_channel}
use net_module.Connection.{Session, Callbacks}

module _ {S U C : Type 0} (epoll : EpollApi S) (cbs : Callbacks S U C) where
  -- `disConnect_ = true` and `clientChannel_->remove()`.
  unfoldable pub disconnect : Session S U C → Result (Session S U C)
  disconnect ses = do
    (channel, s) ← remove_channel epoll ses.sys ses.conn.client_channel
    ok (record ses {
      conn = record (ses.conn) { dis_connect = true; client_channel = channel };
      sys = s;
    })

  unfoldable pub close_callback : Session S U C → Result (Session S U C)
  close_callback ses = do
    ses' ← disconnect ses
    c ← call ses'.conn.closecallback
    cbs.on_close c ses'

  unfoldable pub error_callback : Session S U C → Result (Session S U C)
  error_callback ses = do
    ses' ← disconnect ses
    c ← call ses'.conn.errorcallback
    cbs.on_error c ses'

-- ===== src/Reactor.antt =====
-- wd_reactor_server/Reactor_v4: the reactor with a thread pool, a component for each class.
pub mod SocketIo
pub mod TaskQueue
pub mod ThreadPool
pub mod Bag
pub mod TcpConnection
pub mod EventLoop
pub mod Direct
pub mod Server
pub mod InetAddress
pub mod TcpServer

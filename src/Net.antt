-- ===== src/Net.antt =====
-- The parts of src/CppNet.h and src/CppNet.cpp that keep a state or compute.
pub mod Epoll
pub mod Press

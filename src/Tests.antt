-- ===== src/Tests.antt =====
-- Runs of the models on concrete inputs.
mod Knapsack
mod Cluster
mod Exchange
mod Mail
mod Radix
mod Blocks
mod SpinLock
mod Zsock
mod Epoll
mod Http
mod Curl
mod Descriptors
mod Keywords
